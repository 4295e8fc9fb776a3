-- ===== src/Hires/Ledger.antt =====
-- The table of hires through any sequence of requests to the hire routers.
use bnb_agent_marketplace.Base.{Text, ℕ, map}
use bnb_agent_marketplace.Exec.{Exec}
use bnb_agent_marketplace.Config.{Settings}
use bnb_agent_marketplace.Payment.Types.{TokenConfig, DecodedPayment, Externals}
use bnb_agent_marketplace.Offer.{Web}
use bnb_agent_marketplace.Hires.Types.{Store}
use bnb_agent_marketplace.Hires.Jobs.{Abi}
use bnb_agent_marketplace.Hires.Sweep.{swept}
use bnb_agent_marketplace.Hires.Table.{IsLedger, put-IsLedger, append-IsLedger, swept-IsTable}
use bnb_agent_marketplace.Hires.Steps.{
  Reachable, here, after, Effect, kept, added, appended, replaced, Step-Effect,
}

Effect-IsLedger : {s t : Store} → Effect s t → IsLedger s → IsLedger t
Effect-IsLedger (kept e) l = rw e l
Effect-IsLedger {s} (added user now row key unpaid stored next) l =
    rw (stored, next)
      (append-IsLedger s.next_id (map (swept user now) s.hires) row key unpaid
        (swept-IsTable user now s.next_id s.hires l))
Effect-IsLedger {s} (appended row key unpaid e) l =
    rw e (append-IsLedger s.next_id s.hires row key unpaid l)
Effect-IsLedger {s} (replaced k h row found same closed paid e) l =
    rw e (put-IsLedger s k h row found same paid l)

module _ (web : Web) (x : Externals) (abi : Abi) (settings : Settings) {W : Type 0}
    (broadcast : DecodedPayment → TokenConfig → Text → Text → ℕ → Exec W Text) where
  -- Through any sequence of requests that create, pay, open or submit a hire, from a table where no key
  -- stands twice, each was given out and each paid hire names a transaction, the table stays so.
  pub reachable-IsLedger :
      {start s : Store}
      → Reachable web x abi settings broadcast start s
      → IsLedger start
      → IsLedger s
  reachable-IsLedger here l = l
  reachable-IsLedger (after r step) l =
      Effect-IsLedger (Step-Effect web x abi settings broadcast step) (reachable-IsLedger r l)
