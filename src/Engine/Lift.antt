-- ===== src/Engine/Lift.antt =====
-- Rules for the methods of one object, run inside the engine's state.
use graphon.Exec.{Exec}
use graphon.Exec.Triple.{Keeps, Triple, Total}
use graphon.StateManager.{StateManager}
use graphon.Engine.{Engine, on_manager, on_coordinator}

module _ {V U C A : Type 0} where
  pub Keeps-on_manager :
      {P : StateManager → Type 0} (m : Exec StateManager A)
      → Keeps P m
      → Keeps (λ (s : Engine V U C). P s.manager) (on_manager m)
  Keeps-on_manager m k = record { at = λ s h. k.at s.manager h }

  pub Triple-on_manager :
      {P : StateManager → Type 0} {Q : A → StateManager → Type 0} (m : Exec StateManager A)
      → Triple P m Q
      → Triple (λ (s : Engine V U C). P s.manager) (on_manager m) (λ a s. Q a s.manager)
  Triple-on_manager m t = record { run = λ s h a e. t.run s.manager h a e }

  pub Total-on_manager :
      (m : Exec StateManager A) → Total m → Total {S = Engine V U C} (on_manager m)
  Total-on_manager m t = record { at = λ s. t.at s.manager }

  -- The coordinator's methods leave the state manager alone.
  pub Keeps-on_coordinator :
      (P : StateManager → Type 0) (m : Engine V U C → Exec C A)
      → Keeps (λ (s : Engine V U C). P s.manager) (on_coordinator m)
  Keeps-on_coordinator P m = record { at = λ s h. h }
