-- ===== src/Model/Sets.antt =====
-- Helpers/Extension/ArrayExtension.swift: `mapToSet`, over the insertion into a set.
pub mod Kept
use on_my_way.Base.{List, [], ◌∷◌}

-- The loop of `mapToSet`, on the set that is made so far.
abbrev pub map_to_set {ℓ κ} :
    {Element : Type ℓ} {T : Type κ}
    → (T → List T → List T)
    → (Element → T)
    → List Element
    → List T
    → List T
map_to_set insert transform [] result = result
map_to_set insert transform (item ∷ items) result =
    map_to_set insert transform items (insert (transform item) result)
