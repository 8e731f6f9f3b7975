-- ===== src/System/Slots/Histories.antt =====
-- The registry's whole run, seen from one name: a history of the machine of that name.
use hos_tla.Base.{◌≡◌, refl, sym, ap, ◌∙◌, Option, none, some, List, [], ◌∷◌, Text}
use hos_tla.Base.Maps.{get}
use hos_tla.Types.{AccountId}
use hos_tla.System.Network.{
  Network, start, Step, called, refused, resolved, panicked, Reach, here, next,
}
use hos_tla.System.Slots.{Slot, Action, act, perform, MayPerform, action_of, action_after}
use hos_tla.System.Slots.Refinement.{call-Refines, resolve-slot}

abbrev pub slot_of : Text → Network → Slot
slot_of key n = get key n.registry.sub_accounts

-- What a step of the network means for the name.
abbrev pub step_action : Text → (n m : Network) → Step n m → Option Action
step_action key _ _ (called n env op t p h timely fits) = action_of env op key
step_action key _ _ (refused n env op c h) = none
step_action key _ _ (resolved n env e before f after t p split h) =
    action_after e.success f.callback key
step_action key _ _ (panicked n env e before f after c split h) = none

abbrev pub note : Option Action → List Action → List Action
note none as_before = as_before
note (some a) as_before = a ∷ as_before

-- The actions on the name, the latest first.
abbrev pub history : Text → (n m : Network) → Reach n m → List Action
history key n _ here = []
history key n _ (next {m} {k} r st) = note (step_action key m k st) (history key n m r)

abbrev pub run : List Action → Slot → Slot
run [] slot = slot
run (a ∷ earlier) slot = act a (run earlier slot)

-- Every call was one that its caller might make, on the slot as it then was.
abbrev pub IsAllowed : Text → (n m : Network) → Step n m → Type 0
IsAllowed key _ _ (called n env op t p h timely fits) =
    MayPerform env.predecessor env.block_timestamp (action_of env op key) (slot_of key n)
IsAllowed key _ _ _ = Unit

abbrev pub IsLawful : Text → (n m : Network) → Reach n m → Type 0
IsLawful key n _ here = Unit
IsLawful key n _ (next {m} {k} r st) = IsAllowed key m k st × IsLawful key n m r

run-note :
    (a : Option Action) (earlier : List Action) (slot : Slot)
    → run (note a earlier) slot ≡ perform a (run earlier slot)
run-note none earlier slot = refl
run-note (some a) earlier slot = refl

step_slot :
    (key : Text) (n m : Network) (st : Step n m)
    → (slot_of key m ≡ perform (step_action key n m st) (slot_of key n)) × IsAllowed key n m st
step_slot key _ _ (called n env op t p h timely fits) = call-Refines env key op n.registry t p h
step_slot key _ _ (refused n env op c h) = (refl, tt)
step_slot key _ _ (resolved n env e before f after t p split h) =
    (resolve-slot env e key f.callback n.registry t p h, tt)
step_slot key _ _ (panicked n env e before f after c split h) = (refl, tt)

history_lem :
    (key : Text) (n m : Network) (r : Reach n m)
    → (slot_of key m ≡ run (history key n m r) (slot_of key n)) × IsLawful key n m r
history_lem key n _ here = (refl, tt)
history_lem key n _ (next {m} {k} r st) =
    let (before, lawful) = history_lem key n m r in
    let (now, allowed) = step_slot key m k st in
    (
      now
          ∙ ap (λ slot. perform (step_action key m k st) slot) before
          ∙ sym (run-note (step_action key m k st) (history key n m r) (slot_of key n)),
      (allowed, lawful),
    )

-- Whatever calls and callbacks come in whatever order, what the registry has entered under a name
-- is what the machine of that name makes of its history from a free slot on, and every call in it
-- was one that its caller might make: a rental of a free slot in the caller's own name, or a
-- change of a slot that is the caller's.
pub slot_history :
    (admin : AccountId) (key : Text) (n : Network) (r : Reach (start admin) n)
    → (get key n.registry.sub_accounts ≡ run (history key (start admin) n r) none)
      × IsLawful key (start admin) n r
unfolding get
slot_history admin key n r = history_lem key (start admin) n r
