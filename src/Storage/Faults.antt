-- ===== src/Storage/Faults.antt =====
-- The calls that leave the program: each takes the next outcome that the environment has chosen.
use Prim.Native.String.{String}
use tari_vault.Base.{Option, none, List, [], ◌∷◌}

-- `some e` is a call that fails with the text `e`. Behind the end of the list every call works.
abbrev pub Faults : Type 0
Faults = List (Option String)

abbrev pub outcome : Faults → Option String
outcome [] = none
outcome (f ∷ fs) = f

abbrev pub later : Faults → Faults
later [] = []
later (f ∷ fs) = fs
