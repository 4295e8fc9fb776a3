-- ===== src/Compliance/Keyed.antt =====
-- The table of flags, read by its key.
use bnb_agent_marketplace.Base.{
  arith, ap, text_eq_iff, if◌then◌else◌, Text, text_eq, ◌≡◌, refl, true, Option, none, some, List,
  [], ◌∷◌, ◌++◌, sym, ◌∙◌,
}
use bnb_agent_marketplace.Compliance.{
  postgresql, other_dialect, AgentComplianceFlag, upsert_pg, delete_flag, upsert_other, upsert_flag,
  Dialect,
}

abbrev pub flag_at : Text → List AgentComplianceFlag → Option AgentComplianceFlag
flag_at aid [] = none
flag_at aid (flag ∷ flags) = if text_eq flag.agent_id aid then some flag else flag_at aid flags

-- The table as a function after a write of one row.
abbrev pub put_at :
    AgentComplianceFlag → (Text → Option AgentComplianceFlag) → Text → Option AgentComplianceFlag
put_at row table aid = if text_eq row.agent_id aid then some row else table aid

pub same_text : (a b c : Text) → text_eq a b ≡ true → text_eq a c ≡ text_eq b c
same_text a b c e = ap (λ t. text_eq t c) ((text_eq_iff a b).0 e)

pub common_text : (a b c : Text) → text_eq a c ≡ true → text_eq b c ≡ true → text_eq a b ≡ true
common_text a b c e f = (text_eq_iff a b).1 ((text_eq_iff a c).0 e ∙ sym ((text_eq_iff b c).0 f))

upsert_pg-at :
    (row : AgentComplianceFlag) (flags : List AgentComplianceFlag) (aid : Text)
    → flag_at aid (upsert_pg row flags) ≡ put_at row (λ k. flag_at k flags) aid
unfolding upsert_pg
upsert_pg-at row [] aid = refl
upsert_pg-at row (flag ∷ flags) aid = ground (
  arith,
  upsert_pg-at row flags aid,
  same_text flag.agent_id row.agent_id aid,
  common_text flag.agent_id row.agent_id aid,
)

delete_flag-at :
    (own aid : Text) (flags : List AgentComplianceFlag)
    → flag_at aid (delete_flag own flags) ≡ (if text_eq own aid then none else flag_at aid flags)
unfolding delete_flag
delete_flag-at own aid [] = ground arith
delete_flag-at own aid (flag ∷ flags) = ground (
  arith,
  delete_flag-at own aid flags,
  same_text flag.agent_id own aid,
  common_text flag.agent_id own aid,
)

append-at :
    (row : AgentComplianceFlag) (aid : Text) (flags : List AgentComplianceFlag)
    → flag_at aid (flags ++ row ∷ []) ≡ elim (flag_at aid flags) [
      | some flag ↦ some flag
      | none ↦ if text_eq row.agent_id aid then some row else none
    ]
append-at row aid [] = refl
append-at row aid (flag ∷ flags) = ground (arith, append-at row aid flags)

upsert_other-at :
    (row : AgentComplianceFlag) (flags : List AgentComplianceFlag) (aid : Text)
    → flag_at aid (upsert_other row flags) ≡ put_at row (λ k. flag_at k flags) aid
unfolding upsert_other
upsert_other-at row flags aid = ground (
  arith,
  append-at row aid (delete_flag row.agent_id flags),
  delete_flag-at row.agent_id aid flags,
)

pub upsert_flag-at :
    (dialect : Dialect) (row : AgentComplianceFlag) (flags : List AgentComplianceFlag) (aid : Text)
    → flag_at aid (upsert_flag dialect row flags) ≡ put_at row (λ k. flag_at k flags) aid
unfolding upsert_flag
upsert_flag-at postgresql row flags aid = upsert_pg-at row flags aid
upsert_flag-at other_dialect row flags aid = upsert_other-at row flags aid
