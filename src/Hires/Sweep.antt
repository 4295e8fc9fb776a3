-- ===== src/Hires/Sweep.antt =====
-- The lazy sweep of expired hires.
use bnb_agent_marketplace.Base.{
  if◌then◌else◌, Text, ℕ, ◌+◌, ◌≡◌, refl, false, List, [], ◌∷◌, map, arith, ◌∙◌,
}
use bnb_agent_marketplace.Hires.Types.{HiredAgent, cancelled}
use bnb_agent_marketplace.Hires.Create.{to_sweep, sweep_expired}
use bnb_agent_marketplace.Hires.Rows.{id_of}

-- The sweep of one row.
abbrev pub swept : Text → ℕ → HiredAgent → HiredAgent
swept address now h =
    if to_sweep address now h then record h { status = cancelled; updated_at = now } else h

abbrev pub count : Text → ℕ → List HiredAgent → ℕ
count address now [] = 0
count address now (h ∷ l) = (if to_sweep address now h then 1 else 0) + count address now l

-- The sweep cancels each pending hire of the user that is past its expiry and no other row, keeps the
-- order, and reports how many it cancelled.
pub sweep_expired_exact :
    (address : Text) (now : ℕ) (l : List HiredAgent)
    → ((sweep_expired address now l).0 ≡ map (swept address now) l)
      × ((sweep_expired address now l).1 ≡ count address now l)
unfolding sweep_expired
sweep_expired_exact address now [] = (refl, refl)
sweep_expired_exact address now (h ∷ l) =
    let (rows, n) = sweep_expired_exact address now l in (ground (arith, rows), ground (arith, n))

not_swept_again :
    (address : Text) (now : ℕ) (h : HiredAgent) → to_sweep address now (swept address now h) ≡ false
unfolding to_sweep
not_swept_again address now h = ground arith

count-swept :
    (address : Text) (now : ℕ) (l : List HiredAgent)
    → count address now (map (swept address now) l) ≡ 0
count-swept address now [] = refl
count-swept address now (h ∷ l) = rw (not_swept_again address now h, count-swept address now l) refl

-- A second sweep at the same time finds nothing to cancel.
pub sweep_expired_idem :
    (address : Text) (now : ℕ) (l : List HiredAgent)
    → (sweep_expired address now (sweep_expired address now l).0).1 ≡ 0
sweep_expired_idem address now l =
    let first = (sweep_expired_exact address now l).0 in
    (sweep_expired_exact address now (sweep_expired address now l).0).1
    ∙ rw first (count-swept address now l)

pub ids-swept :
    (address : Text) (now : ℕ) (l : List HiredAgent)
    → map id_of (map (swept address now) l) ≡ map id_of l
ids-swept address now [] = refl
ids-swept address now (h ∷ l) = ground (arith, ids-swept address now l)
