-- ===== src/StateTransition/Tests.antt =====
-- The matrix class on a traffic light that can go out of order.
use credence_backend.StateTransition.Matrix.{
  Transition, new, built, is_valid, get_terminal_states, get_all_states, size,
}
use credence_backend.StateTransition.Laws.{lists, new-is_valid}
use credence_backend.Base.{String, ◌≡◌, refl, true, none, some, List, [], ◌∷◌, string_eq, contains}

abbrev green : String
green = "green"

abbrev red : String
red = "red"

abbrev broken : String
broken = "broken"

abbrev light : List (Transition String)
light =
    record { from = green; to = red; action = none }
    ∷ record { from = red; to = green; action = none }
    ∷ record { from = red; to = broken; action = some "fail" }
    ∷ []

light_twice : new (record { from = red; to = green; action = none } ∷ light) ≡ none
unfolding new
light_twice = refl

light_terminal : get_terminal_states (built light) ≡ broken ∷ []
unfolding built get_terminal_states
light_terminal = refl

light_states : contains broken (get_all_states (built light)) ≡ true
unfolding built get_all_states
light_states = refl

light_size : size (built light) ≡ 3
unfolding built size
light_size = refl

built-light : new light ≡ some (built light)
unfolding built new
built-light = refl

new-is_valid_example : is_valid (built light) red broken ≡ lists red broken light
new-is_valid_example = new-is_valid light red broken built-light
