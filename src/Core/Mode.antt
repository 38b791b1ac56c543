-- ===== src/Core/Mode.antt =====
-- core/schemas/events.py and core/mode.py: the autonomy ladder and the transitions that an operator
-- may make.
use afterhours.Prelude.{ℕ, ◌≡◌, refl, Bool, false, not, ◌&&◌, ◌||◌, List, [], ◌∷◌, leb, ◌==◌}

pub data AutonomyMode : Type 0 where
  observe paper assisted semi_auto supervised : AutonomyMode

-- `AutonomyMode.level`: the rung on the ladder.
abbrev pub level : AutonomyMode → ℕ
level observe = 0
level paper = 1
level assisted = 2
level semi_auto = 3
level supervised = 4

-- `==` of two modes
abbrev pub mode_eq : AutonomyMode → AutonomyMode → Bool
mode_eq a b = level a == level b

-- `to in modes`
unfoldable pub contains_mode : AutonomyMode → List AutonomyMode → Bool
contains_mode to [] = false
contains_mode to (m ∷ ms) = mode_eq m to || contains_mode to ms

-- `_VALID_TRANSITIONS`
unfoldable pub valid_transitions : AutonomyMode → List AutonomyMode
valid_transitions observe = paper ∷ assisted ∷ []
valid_transitions paper = observe ∷ assisted ∷ []
valid_transitions assisted = observe ∷ paper ∷ []
valid_transitions semi_auto = observe ∷ assisted ∷ []
valid_transitions supervised = observe ∷ assisted ∷ []

-- `ModeController.can_transition`
unfoldable pub can_transition : AutonomyMode → AutonomyMode → Bool
unfolding contains_mode valid_transitions
can_transition current to = contains_mode to (valid_transitions current)

-- An operator moves to another mode, up to ASSISTED and no further; from the two modes above it
-- the way down is to ASSISTED or OBSERVE, and not to PAPER.
can_transition_ladder :
    (from to : AutonomyMode)
    → can_transition from to
      ≡ (not (mode_eq from to) && leb (level to) 2 && not (leb 3 (level from) && mode_eq to paper))
unfolding can_transition
can_transition_ladder observe observe = refl
can_transition_ladder observe paper = refl
can_transition_ladder observe assisted = refl
can_transition_ladder observe semi_auto = refl
can_transition_ladder observe supervised = refl
can_transition_ladder paper observe = refl
can_transition_ladder paper paper = refl
can_transition_ladder paper assisted = refl
can_transition_ladder paper semi_auto = refl
can_transition_ladder paper supervised = refl
can_transition_ladder assisted observe = refl
can_transition_ladder assisted paper = refl
can_transition_ladder assisted assisted = refl
can_transition_ladder assisted semi_auto = refl
can_transition_ladder assisted supervised = refl
can_transition_ladder semi_auto observe = refl
can_transition_ladder semi_auto paper = refl
can_transition_ladder semi_auto assisted = refl
can_transition_ladder semi_auto semi_auto = refl
can_transition_ladder semi_auto supervised = refl
can_transition_ladder supervised observe = refl
can_transition_ladder supervised paper = refl
can_transition_ladder supervised assisted = refl
can_transition_ladder supervised semi_auto = refl
can_transition_ladder supervised supervised = refl
