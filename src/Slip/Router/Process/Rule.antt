-- ===== src/Slip/Router/Process/Rule.antt =====
-- The rule of the loop of `Process`: an invariant, a measure that falls, and what holds at each end.
use routing_slip_pattern.Common.{ℕ, zero, suc, ◌<◌, ◌≡◌, refl, some, arith}
use routing_slip_pattern.Slip.Message.{Message}
use routing_slip_pattern.Slip.Trace.{Context}
use routing_slip_pattern.Slip.Router.{World, Router}
use routing_slip_pattern.Slip.Router.Step.{Round, go_on, leave, stop, crash}
use routing_slip_pattern.Slip.Router.Step.Take.{round}
use routing_slip_pattern.Slip.Router.Process.{Run, finished, crashed, complete, loop}

module _ {W : Type 0} (world : World W) (r : Router W) (ctx : Context) (I : Message → Type 0)
    (measure : Message → ℕ) (E : Run W → Type 0) where
  -- A round from a message `m`: it keeps the invariant and lowers the measure, or ends as `E` says.
  abbrev pub Good : Message → Round W → Type 0
  Good m (go_on m' w) = I m' × (measure m' < measure m)
  Good m (leave m' w) = E (complete world r ctx m' w)
  Good m (stop e m' w) = E (finished (some e) m' w)
  Good m (crash v m' w) = E (crashed v m' w)

  loop_after :
      (fuel : ℕ) (m : Message) (w : W) (d : Round W)
      → round world r ctx m w ≡ d
      → Good m d
      → measure m < suc fuel
      → ((m' : Message) (w' : W)
          → I m'
          → measure m' < fuel
          → (run : Run W) × (loop world r fuel ctx m' w' ≡ some run) × E run)
      → (run : Run W) × (loop world r (suc fuel) ctx m w ≡ some run) × E run
  unfolding loop
  loop_after fuel m w (go_on m' w') e g l rest =
      let (run, ends, h) = rest m' w' g.0 (omega (arith, g.1)) in (run, rw (e, loop) ends, h)
  loop_after fuel m w (leave m' w') e g l rest = (complete world r ctx m' w', rw (e, loop) refl, g)
  loop_after fuel m w (stop x m' w') e g l rest = (finished (some x) m' w', rw (e, loop) refl, g)
  loop_after fuel m w (crash v m' w') e g l rest = (crashed v m' w', rw (e, loop) refl, g)

  -- The loop ends with fuel above the measure, as `E` says.
  pub loop_rule :
      ((m : Message) (w : W) → I m → Good m (round world r ctx m w))
      → (fuel : ℕ) (m : Message) (w : W) → I m
      → measure m < fuel
      → (run : Run W) × (loop world r fuel ctx m w ≡ some run) × E run
  loop_rule good zero m w i l = elim l [ ]
  loop_rule good (suc fuel) m w i l =
      loop_after fuel m w (round world r ctx m w) refl (good m w i) l (loop_rule good fuel)
