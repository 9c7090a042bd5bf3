-- ===== src/Slip/Router/Step/Post.antt =====
-- What holds of the message at the end of a round, by the way in which the round ends.
use routing_slip_pattern.Common.{ℕ, Bool, Option, none, some, ◌≡◌, option_rule, if_rule, arith}
use routing_slip_pattern.Common.Int.{pos}
use routing_slip_pattern.Slip.Errors.{GoError, save_failed}
use routing_slip_pattern.Slip.Message.{Message, set_cursor, set_status}
use routing_slip_pattern.Slip.Trace.{Context}
use routing_slip_pattern.Slip.Router.{World, Router, Save}
use routing_slip_pattern.Slip.Snapshot.{snapshot}
use routing_slip_pattern.Slip.Router.Step.{
  Round, go_on, leave, stop, crash, save_state, save_and_go, fail_at,
}
use routing_slip_pattern.Slip.Router.Step.Take.{close_step}

pub record Contract : Type 1 where
  pub goes : Message → Type 0
  pub leaves : Message → Type 0
  pub stops : GoError → Message → Type 0
  pub crashes : Message → Type 0

abbrev pub Post : {W : Type 0} → Contract → Round W → Type 0
Post c (go_on m w) = c.goes m
Post c (leave m w) = c.leaves m
Post c (stop e m w) = c.stops e m
Post c (crash v m w) = c.crashes m

save_error :
    (o : Option GoError) (y : GoError)
    → elim o [ none ↦ none | some x ↦ some (save_failed x) ] ≡ some y
    → (x : GoError) × (y ≡ save_failed x)
save_error none y e = ground arith
save_error (some x) y e = (x, ground arith)

module _ {W : Type 0} (world : World W) (r : Router W) (c : Contract) where
  -- An error of a save is one that the router has wrapped.
  pub save_state_error :
      (ctx : Context) (m : Message) (w : W) (y : GoError)
      → (save_state world r ctx m w).0 ≡ some y
      → (x : GoError) × (y ≡ save_failed x)
  unfolding save_state
  save_state_error ctx m w y e = wrapped r.state_store e
    where
      wrapped :
          (store : Option (Save W))
          → (save_state world (record r { state_store = store }) ctx m w).0 ≡ some y
          → (x : GoError) × (y ≡ save_failed x)
      wrapped none e' = ground arith
      wrapped (some save) e' =
          save_error (save ctx (snapshot world.quote m (world.now w).0) (world.now w).1).0 y e'

  -- A save and a way on: either the round goes on with the message, or it stops with it.
  pub Post-save_and_go :
      (ctx : Context) (m : Message) (w : W)
      → c.goes m
      → ((x : GoError) → c.stops (save_failed x) m)
      → Post c (save_and_go world r ctx m w)
  unfolding save_and_go
  Post-save_and_go ctx m w g s =
      option_rule (Post c) (save_state world r ctx m w).0 _ _ (λ _. g)
        (λ y e. let (x, p) = save_state_error ctx m w y e in rw p (s x))

  pub Post-fail_at :
      (index : ℕ) (x : GoError) (m : Message) (w : W)
      → c.stops x (set_status (set_cursor m (pos index)) "failed")
      → Post c (fail_at world r index x m w)
  unfolding fail_at
  Post-fail_at index x m w s = s

  -- The save behind a step: the round goes on as before, is left with status "stopped" where the
  -- step asked for that, or stops with the message as it was.
  pub Post-close_step :
      (ctx : Context) (proceed : Bool) (d : Round W)
      → Post c d
      → ((m : Message) → c.goes m → c.leaves (set_status m "stopped"))
      → ((x : GoError) (m : Message) → c.goes m → c.stops (save_failed x) m)
      → Post c (close_step world r ctx proceed d)
  unfolding close_step
  Post-close_step ctx proceed (go_on m w) g l s =
      option_rule (Post c) (save_state world r ctx m w).0 _ _
        (λ _. if_rule (Post c) proceed _ _ (λ _. g) (λ _. l m g))
        (λ y e. let (x, p) = save_state_error ctx m w y e in rw p (s x m g))
  Post-close_step ctx proceed (leave m w) g l s = g
  Post-close_step ctx proceed (stop e m w) g l s = g
  Post-close_step ctx proceed (crash v m w) g l s = g
