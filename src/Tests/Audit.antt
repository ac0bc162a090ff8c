-- ===== src/Tests/Audit.antt =====
-- The theorems on the audit log at concrete inputs.
use fintech_ecosystem.Base.{
  String, ◌*◌, ◌/◌, ◌%◌, ◌==◌, ◌<>◌, ◌≡◌, refl, ◌↔◌, true, false, if◌then◌else◌, none, some, List,
  [], ◌∷◌, ◌++◌, str_ne, arith,
}
use fintech_ecosystem.Audit.{
  SignedAuditLog, AuditEnv, SecureLogger, ChainError, invalid_signature, chain_broken, sign, log,
  verify_chain,
}
use fintech_ecosystem.Audit.Chain.{IsLinked, verify_chain_iff}
use fintech_ecosystem.Audit.Breaks.{zones_break, stored_time_invalid}

abbrev audit_env : AuditEnv
audit_env = record {
  hmac = λ key c. some ("s" <> c.previous_hash);
  kept_time = λ time. time;
  kept_metadata = λ text. text;
  refuses_insert = λ _. none;
  refuses_select = λ _. none;
}

abbrev entry : String → String → String → SignedAuditLog
entry zone previous signature = record {
  id = "e";
  zone_id = zone;
  timestamp = 5;
  actor_id = "ann";
  action = "user.login";
  resource_type = "user";
  resource_id = "ann";
  metadata = "{}";
  ip_address = "";
  user_agent = "";
  previous_hash = previous;
  signature = signature;
}

abbrev signing_key : String
signing_key = "0123456789abcdef0123456789abcdef"

abbrev new_logger : SecureLogger
new_logger = record { rows = []; signing_key = signing_key; last_hash = "genesis" }

abbrev two_zones : SecureLogger
two_zones = record new_logger {
  rows = entry "z2" "sgenesis" "ssgenesis" ∷ entry "z1" "genesis" "sgenesis" ∷ [];
  last_hash = "ssgenesis";
}

verify_chain_iff_example :
    (verify_chain audit_env "z1" 9 two_zones ≡ some (true, []))
    ↔ IsLinked audit_env signing_key (entry "z1" "genesis" "sgenesis" ∷ [])
verify_chain_iff_example = verify_chain_iff audit_env "z1" 9 two_zones refl

abbrev after_one : SecureLogger
after_one = (log audit_env 5000 (entry "z1" "" "") new_logger).1

abbrev after_two : SecureLogger
after_two = (log audit_env 6000 (entry "z2" "" "") after_one).1

abbrev after_three : SecureLogger
after_three = (log audit_env 7000 (entry "z1" "" "") after_two).1

zones_break_example :
    verify_chain audit_env "z1" 2 after_three ≡ some (false, chain_broken "e" ∷ [])
unfolding log sign
zones_break_example =
    zones_break audit_env "z1" 5 6 7 (entry "z1" "" "") (entry "z2" "" "") (entry "z1" "" "")
      new_logger after_one after_two after_three (λ _. refl) refl (ground arith) (ground arith) refl
      (str_ne "z2" "z1" refl) refl refl refl refl refl refl (str_ne "sgenesis" "" refl)
      (str_ne "ssgenesis" "sgenesis" refl) refl

-- The column keeps microseconds, and the signature shows whether the time had more.
abbrev coarse_env : AuditEnv
coarse_env = record audit_env {
  hmac = λ key c. some (if c.timestamp % 1000 == 0 then "whole" else "finer");
  kept_time = λ time. time / 1000 * 1000;
}

stored_time_invalid_example :
    (earlier later : List ChainError) × (verify_chain coarse_env "z1" 9
        (log coarse_env 7001 (entry "z1" "" "") new_logger).1
      ≡ some (false, (earlier ++ invalid_signature "e" ∷ []) ++ later))
unfolding log sign
stored_time_invalid_example =
    stored_time_invalid coarse_env "z1" "whole" 8 7001 (entry "z1" "" "") new_logger
      (log coarse_env 7001 (entry "z1" "" "") new_logger).1 tt refl refl refl
      (str_ne "whole" "finer" refl) refl
