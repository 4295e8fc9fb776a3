-- ===== src/Hires/Closed.antt =====
-- A hire that is no longer pending stays so, and is broadcast no more.
use bnb_agent_marketplace.Errors.{ok, err, broadcast_failed, already_paid, forbidden, Error}
use bnb_agent_marketplace.Base.{
  Text, ℕ, ◌≡◌, ◌≢◌, ◌≤◌, ◌⊎◌, ◌∙◌, refl, inl, inr, some, false, arith, List, [], ◌∷◌, ◌++◌, map,
  length, ◌==◌, Bool-cases, text_eq, if◌then◌else◌,
}
use bnb_agent_marketplace.Exec.{Exec}
use bnb_agent_marketplace.Config.{Settings}
use bnb_agent_marketplace.Payment.Types.{TokenConfig, DecodedPayment, Externals}
use bnb_agent_marketplace.Offer.{Web}
use bnb_agent_marketplace.Hires.Types.{HiredAgent, Store, find_hire, put_hire, is_pending}
use bnb_agent_marketplace.Hires.Create.{to_sweep}
use bnb_agent_marketplace.Hires.Pay.{Headers, Approved, approve}
use bnb_agent_marketplace.Hires.Jobs.{Abi}
use bnb_agent_marketplace.Hires.Payment.{
  approve-IsApproved, paid_row, failed_row, pay, sent, pay-sent, pay-not_sent, not_pending_refused,
}
use bnb_agent_marketplace.Hires.Sweep.{swept}
use bnb_agent_marketplace.Hires.Steps.{
  Reachable, here, after, Effect, kept, added, appended, replaced, Step-Effect,
}
use bnb_agent_marketplace.Hires.Rows.{id-find_hire, find_hire-put_self, find_hire-put_ne}

-- The hire is in the table and no longer pending.
abbrev pub IsClosed : ℕ → Store → Type 0
IsClosed hire_id t =
    (h : HiredAgent) × (find_hire hire_id t.hires ≡ some h) × (is_pending h.status ≡ false)

find_hire-append :
    (k : ℕ) (l m : List HiredAgent) {h : HiredAgent}
    → find_hire k l ≡ some h
    → find_hire k (l ++ m) ≡ some h
unfolding find_hire
find_hire-append k [] m e = absurd (cc)
find_hire-append k (y ∷ l) m {h} e = ground (arith, find_hire-append k l m {h = h})

find_hire-swept :
    (user : Text) (now k : ℕ) (l : List HiredAgent) {h : HiredAgent}
    → find_hire k l ≡ some h
    → is_pending h.status ≡ false
    → find_hire k (map (swept user now) l) ≡ some h
unfolding find_hire to_sweep
find_hire-swept user now k [] e closed = absurd (cc)
find_hire-swept user now k (y ∷ l) {h} e closed =
    ground (arith, find_hire-swept user now k l {h = h})

put-IsClosed :
    (hire_id k : ℕ) (s : Store) (h row : HiredAgent)
    → find_hire k s.hires ≡ some h
    → row.id ≡ h.id
    → is_pending row.status ≡ false
    → IsClosed hire_id s
    → IsClosed hire_id (record s { hires = put_hire row s.hires })
put-IsClosed hire_id k s h row found same closed (old, there, was) =
    let key : row.id ≡ k = same ∙ id-find_hire k s.hires found in
    elim (Bool-cases (hire_id == k)) [
      | inl e ↦
          let here : hire_id ≡ row.id = ground arith in
          let at_row : find_hire row.id s.hires ≡ some h = rw key found in
          (row, rw here (find_hire-put_self row s.hires at_row), closed)
      | inr e ↦
          let other : hire_id ≢ row.id = λ p. ground arith in
          (old, find_hire-put_ne hire_id row s.hires other ∙ there, was)
    ]

Effect-IsClosed : (hire_id : ℕ) {s t : Store} → Effect s t → IsClosed hire_id s → IsClosed hire_id t
Effect-IsClosed hire_id (kept e) c = rw e c
Effect-IsClosed hire_id {s} (added user now row key unpaid stored next) (h, found, closed) = (
  h,
  rw stored (
      find_hire-append hire_id (map (swept user now) s.hires) (row ∷ [])
        (find_hire-swept user now hire_id s.hires found closed)),
  closed,
)
Effect-IsClosed hire_id {s} (appended row key unpaid e) (h, found, closed) =
    (h, rw e (find_hire-append hire_id s.hires (row ∷ []) found), closed)
Effect-IsClosed hire_id {s} (replaced k h row found same closed paid e) c =
    rw e (put-IsClosed hire_id k s h row found same closed c)

module _ (web : Web) (x : Externals) (abi : Abi) (settings : Settings) {W : Type 0}
    (broadcast : DecodedPayment → TokenConfig → Text → Text → ℕ → Exec W Text) where
  Reachable-IsClosed :
      (hire_id : ℕ) {s t : Store}
      → Reachable web x abi settings broadcast s t
      → IsClosed hire_id s
      → IsClosed hire_id t
  Reachable-IsClosed hire_id here c = c
  Reachable-IsClosed hire_id (after r step) c =
      Effect-IsClosed hire_id (Step-Effect web x abi settings broadcast step)
        (Reachable-IsClosed hire_id r c)

  -- The broadcaster has answered for an approved hire with a hash that the table can hold or with
  -- `BroadcastFailed`.
  abbrev pub Answered : Approved → ℕ → W → Type 0
  Answered a now w =
      ((sent x settings broadcast a now w).0 ≡ err broadcast_failed)
      ⊎ ((tx : Text) × ((sent x settings broadcast a now w).0 ≡ ok tx) × (length tx ≤ 66))

  module _ (hire_id : ℕ) (headers : Headers) (user : Text) (now : ℕ) (s : Store) (w : W) where
    -- The row that is written where the request was approved.
    written-IsClosed :
        (a : Approved) (row : HiredAgent)
        → approve x settings hire_id headers user now s ≡ ok a
        → row.id ≡ a.hire.id
        → is_pending row.status ≡ false
        → (pay x settings broadcast hire_id headers user now s w).1
          ≡ record s { hires = put_hire row s.hires }
        → IsClosed hire_id (pay x settings broadcast hire_id headers user now s w).1
    written-IsClosed a row e same closed wrote =
        let found = (approve-IsApproved x settings hire_id headers user now s a e).found in
        let key : row.id ≡ hire_id = same ∙ id-find_hire hire_id s.hires found in
        let at_row : find_hire row.id s.hires ≡ some a.hire = rw key found in
        (row, rw wrote (rw (← key) (find_hire-put_self row s.hires at_row)), closed)

    pay-IsClosed :
        (a : Approved)
        → approve x settings hire_id headers user now s ≡ ok a
        → Answered a now w
        → IsClosed hire_id (pay x settings broadcast hire_id headers user now s w).1
    pay-IsClosed a e (inl e') =
        written-IsClosed a (failed_row x settings broadcast a.hire now) e refl refl
          (pay-not_sent x settings broadcast hire_id headers user now s w a e e')
    pay-IsClosed a e (inr (tx, e', short)) =
        written-IsClosed a (paid_row x settings broadcast a.hire tx now) e refl refl
          (pay-sent x settings broadcast hire_id headers user now s w a tx e e' (ground arith))

  -- Once the broadcaster has answered for an approved hire with a hash of at most 66 characters or with
  -- `BroadcastFailed`, then after any further requests to the hire routers every request to pay that
  -- hire, whoever makes it, whenever and with whatever headers, is refused and neither asks the
  -- broadcaster nor writes.
  pub settles_once :
      (hire_id : ℕ) (headers : Headers) (user : Text) (now : ℕ) (s : Store) (w : W) (a : Approved)
      → approve x settings hire_id headers user now s ≡ ok a
      → Answered a now w
      → {t : Store}
      → Reachable web x abi settings broadcast
          (pay x settings broadcast hire_id headers user now s w).1
          t
      → (headers' : Headers) (user' : Text) (now' : ℕ) (w' : W)
      → (e : Error) × (pay x settings broadcast hire_id headers' user' now' t w' ≡ (err e, t, w'))
  settles_once hire_id headers user now s w a e answered {t} later headers' user' now' w' =
      let (h, found, closed) =
        Reachable-IsClosed hire_id later (pay-IsClosed hire_id headers user now s w a e answered) in
      (
        if text_eq h.address user' then already_paid else forbidden,
        not_pending_refused x settings broadcast hire_id headers' user' now' t w' found closed,
      )
