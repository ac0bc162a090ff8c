-- ===== src/Scopes/Words.antt =====
-- Parsing and joining scopes (pkg/scopes/scopes.go).
use fintech_ecosystem.Base.{
  ℕ, ◌≡◌, refl, sym, ◌∙◌, ap, Bool, true, not, ◌&&◌, List, [], ◌∷◌, ◌++◌, map, select, All, ◌==◌,
  arith,
}
use mathlib.Core.List.{append_assoc, append-nil}
use fintech_ecosystem.Scopes.{
  Text, comma, space, is_space, end_word, words_after, fields, trim_left, trim_right, trim_space,
  is_some_text, comma_to_space, parse_scopes, join_scopes,
}

-- A character of a scope: no space and no comma.
abbrev pub is_plain : ℕ → Bool
is_plain c = not (is_space c) && not (c == comma)

-- A scope by itself: some characters, none of which separates scopes.
abbrev pub IsScope : Text → Type 0
IsScope w = (is_some_text w ≡ true) × All (λ c. is_plain c ≡ true) w

words_after-plain :
    (word w rest : Text)
    → All (λ c. is_plain c ≡ true) w
    → words_after word (w ++ rest) ≡ words_after (word ++ w) rest
words_after-plain word [] rest plain = ap (λ v. words_after v rest) (sym (append-nil word))
words_after-plain word (c ∷ w) rest (here, plain) =
    ground
      (arith, here, words_after-plain (word ++ c ∷ []) w rest plain, append_assoc word (c ∷ []) w)

trim_left-plain : (w : Text) → All (λ c. is_plain c ≡ true) w → trim_left w ≡ w
trim_left-plain [] plain = refl
trim_left-plain (c ∷ w) (here, plain) = ground (arith, here)

trim_right-plain : (w : Text) → All (λ c. is_plain c ≡ true) w → trim_right w ≡ w
trim_right-plain [] plain = refl
trim_right-plain (c ∷ []) (here, plain) = ground (arith, here)
trim_right-plain (c ∷ d ∷ w) (here, plain) = ground (arith, trim_right-plain (d ∷ w) plain)

trim_space-plain : (w : Text) → All (λ c. is_plain c ≡ true) w → trim_space w ≡ w
unfolding trim_space
trim_space-plain w plain = rw (trim_left-plain w plain) (trim_right-plain w plain)

commas-plain :
    (w rest : Text)
    → All (λ c. is_plain c ≡ true) w
    → map comma_to_space (w ++ rest) ≡ w ++ map comma_to_space rest
commas-plain [] rest plain = refl
commas-plain (c ∷ w) rest (here, plain) = ground (arith, here, commas-plain w rest plain)

join-unchanged :
    (ws : List Text) → All IsScope ws → map comma_to_space (join_scopes ws) ≡ join_scopes ws
unfolding join_scopes
join-unchanged [] scopes = refl
join-unchanged (w ∷ []) ((some, plain), scopes) =
    let alone = commas-plain w [] plain in rw (append-nil w) at alone
join-unchanged (w ∷ v ∷ vs) ((some, plain), scopes) =
    commas-plain w (space ∷ join_scopes (v ∷ vs)) plain
    ∙ ap (λ rest. w ++ space ∷ rest) (join-unchanged (v ∷ vs) scopes)

end_word-some : (w : Text) (ws : List Text) → is_some_text w ≡ true → end_word w ws ≡ w ∷ ws
end_word-some [] ws some = absurd (ground (arith, some))
end_word-some (c ∷ w) ws some = refl

fields-join : (ws : List Text) → All IsScope ws → words_after [] (join_scopes ws) ≡ ws
unfolding join_scopes is_space
fields-join [] scopes = refl
fields-join (w ∷ []) ((some, plain), scopes) =
    let read = words_after-plain [] w [] plain in
    (rw (append-nil w) at read) ∙ end_word-some w [] some
fields-join (w ∷ v ∷ vs) ((some, plain), scopes) =
    words_after-plain [] w (space ∷ join_scopes (v ∷ vs)) plain
    ∙ end_word-some w (words_after [] (join_scopes (v ∷ vs))) some
    ∙ ap (λ rest. w ∷ rest) (fields-join (v ∷ vs) scopes)

trimmed : (ws : List Text) → All IsScope ws → select is_some_text (map trim_space ws) ≡ ws
trimmed [] scopes = refl
trimmed (w ∷ ws) ((some, plain), scopes) =
    ground (arith, some, trim_space-plain w plain, trimmed ws scopes)

join-some :
    (w : Text) (ws : List Text) → is_some_text w ≡ true → is_some_text (join_scopes (w ∷ ws)) ≡ true
unfolding join_scopes
join-some [] ws some = absurd (ground (arith, some))
join-some (c ∷ w) [] some = refl
join-some (c ∷ w) (v ∷ vs) some = refl

-- Scopes go round: joined by `JoinScopes` and parsed by `ParseScopes`, any list of texts that are
-- not empty and hold no space and no comma comes back as it was.
pub parse_scopes-join_scopes :
    (ws : List Text) → All IsScope ws → parse_scopes (join_scopes ws) ≡ ws
unfolding parse_scopes fields join_scopes
parse_scopes-join_scopes [] scopes = refl
parse_scopes-join_scopes (w ∷ ws) ((some, plain), scopes) =
    rw
      (
        join-some w ws some,
        join-unchanged (w ∷ ws) ((some, plain), scopes),
        fields-join (w ∷ ws) ((some, plain), scopes),
      )
      (trimmed (w ∷ ws) ((some, plain), scopes))
