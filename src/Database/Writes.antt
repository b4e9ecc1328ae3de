-- ===== src/Database/Writes.antt =====
-- What a write of several children leaves alone.
use on_my_way.Base.{
  ap, String, ◌≡◌, refl, true, Option, none, some, ◌==◌, eq_iff, eq_refl, ◌∷◌, [], List, ◌++◌,
  arith, All, if◌then◌else◌, ◌∙◌,
}
use on_my_way.Database.{Leaf, words, flag, is_words, NodePath, above, apart, set_children, Database}

-- The value of the child `k` after the children `kvs` are written in turn over `old`.
abbrev pub written : String → List (String × String) → Option Leaf → Option Leaf
written k [] old = old
written k ((j, s) ∷ kvs) old = written k kvs (if j == k then some (words s) else old)

above-child : (p : NodePath) (j k : String) → above (p ++ (j ∷ [])) (p ++ (k ∷ [])) ≡ (j == k)
above-child [] j k = ground arith
above-child (a ∷ p) j k = ground (arith, eq_refl a, above-child p j k)

pub words_of_is_words : (s : String) (v : Option Leaf) → is_words s v ≡ true → v ≡ some (words s)
words_of_is_words s none h = ground arith
words_of_is_words s (some (words t)) h = ground (arith, eq_iff t s)
words_of_is_words s (some (flag b)) h = ground arith

above-parent : (p : NodePath) (k : String) → above p (p ++ (k ∷ [])) ≡ true
above-parent [] k = refl
above-parent (a ∷ p) k = ground (arith, eq_refl a, above-parent p k)

module _ (f : Database) where
  open f use {Db, read, exists, set_value, update_child_values, read-set_value, exists-set_value}
  open f use {update_child_values_lem}

  -- None of the children that `kvs` names is `q`, above it or below it.
  abbrev pub Misses : NodePath → List (String × String) → NodePath → Type 0
  Misses p kvs q = All (λ kv. apart (p ++ (kv.0 ∷ [])) q ≡ true) kvs

  read-set_children :
      (kvs : List (String × String)) (db : Db) (p q : NodePath)
      → Misses p kvs q
      → read (set_children set_value db p kvs) q ≡ read db q
  read-set_children [] db p q h = refl
  read-set_children ((k, s) ∷ kvs) db p q (h, hs) =
      read-set_children kvs (set_value db (p ++ (k ∷ [])) (words s)) p q hs
      ∙ ground (arith, read-set_value db (p ++ (k ∷ [])) (words s) q)

  exists-set_children :
      (kvs : List (String × String)) (db : Db) (p q : NodePath)
      → Misses p kvs q
      → exists (set_children set_value db p kvs) q ≡ exists db q
  exists-set_children [] db p q h = refl
  exists-set_children ((k, s) ∷ kvs) db p q (h, hs) =
      exists-set_children kvs (set_value db (p ++ (k ∷ [])) (words s)) p q hs
      ∙ ground (arith, exists-set_value db (p ++ (k ∷ [])) (words s) q)

  pub read-update :
      (kvs : List (String × String)) (db : Db) (p q : NodePath)
      → Misses p kvs q
      → read (update_child_values db p kvs) q ≡ read db q
  read-update kvs db p q h = rw (update_child_values_lem db p kvs) (read-set_children kvs db p q h)

  pub exists-update :
      (kvs : List (String × String)) (db : Db) (p q : NodePath)
      → Misses p kvs q
      → exists (update_child_values db p kvs) q ≡ exists db q
  exists-update kvs db p q h =
      rw (update_child_values_lem db p kvs) (exists-set_children kvs db p q h)

  read-set_children_child :
      (kvs : List (String × String)) (db : Db) (p : NodePath) (k : String)
      → read (set_children set_value db p kvs) (p ++ (k ∷ []))
        ≡ written k kvs (read db (p ++ (k ∷ [])))
  read-set_children_child [] db p k = refl
  read-set_children_child ((j, s) ∷ kvs) db p k =
      read-set_children_child kvs (set_value db (p ++ (j ∷ [])) (words s)) p k
      ∙ ap (written k kvs) (
          ground (
            arith,
            read-set_value db (p ++ (j ∷ [])) (words s) (p ++ (k ∷ [])),
            above-child p j k,
            above-child p k j,
            eq_iff j k,
            eq_iff k j,
          ))

  pub read-update_child :
      (kvs : List (String × String)) (db : Db) (p : NodePath) (k : String)
      → read (update_child_values db p kvs) (p ++ (k ∷ []))
        ≡ written k kvs (read db (p ++ (k ∷ [])))
  read-update_child kvs db p k =
      rw (update_child_values_lem db p kvs) (read-set_children_child kvs db p k)

  exists-set_children_parent :
      (kvs : List (String × String)) (db : Db) (p : NodePath)
      → exists db p ≡ true
      → exists (set_children set_value db p kvs) p ≡ true
  exists-set_children_parent [] db p h = h
  exists-set_children_parent ((k, s) ∷ kvs) db p h =
      exists-set_children_parent kvs (set_value db (p ++ (k ∷ [])) (words s)) p
        (ground (arith, exists-set_value db (p ++ (k ∷ [])) (words s) p, above-parent p k))

  -- A node exists once a child of it has been written.
  pub exists-update_parent :
      (k s : String) (kvs : List (String × String)) (db : Db) (p : NodePath)
      → exists (update_child_values db p ((k, s) ∷ kvs)) p ≡ true
  exists-update_parent k s kvs db p = rw (update_child_values_lem db p ((k, s) ∷ kvs)) (
      exists-set_children_parent kvs (set_value db (p ++ (k ∷ [])) (words s)) p
        (ground (arith, exists-set_value db (p ++ (k ∷ [])) (words s) p, above-parent p k)))
