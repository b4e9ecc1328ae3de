-- ===== src/Database/Memory.antt =====
-- A database held in memory, as a list of leaves with their paths: it meets every law of the
-- interface, so the theorems about the services can be applied to concrete data.
use on_my_way.Base.{
  String, ◌≡◌, refl, Bool, true, false, ◌&&◌, ◌||◌, Option, none, some, List, [], ◌∷◌, ◌++◌, arith,
  ◌==◌, eq_iff, eq_refl, elem, if◌then◌else◌, Bool-cases, inl, inr,
}
use on_my_way.Database.{Leaf, NodePath, above, is_words, has_words, set_children, Database}
use Prim.Native.String.{compare}
use Prim.Native.Nat.{Ordering}

abbrev pub Entries : Type 0
Entries = List (NodePath × Leaf)

same : NodePath → NodePath → Bool
same p q = above p q && above q p

pub find : Entries → NodePath → Option Leaf
unfolding same
find [] q = none
find ((p, v) ∷ db) q = if same p q then some v else find db q

pub holds : Entries → NodePath → Bool
holds [] q = false
holds ((p, v) ∷ db) q = above q p || holds db q

-- The entries that are not below `p`.
without : NodePath → Entries → Entries
without p [] = []
without p ((e, v) ∷ db) = let rest = without p db in if above p e then rest else (e, v) ∷ rest

-- The entries that are neither below nor above `p`.
unrelated : NodePath → Entries → Entries
unrelated p [] = []
unrelated p ((e, v) ∷ db) =
    let rest = unrelated p db in if above p e || above e p then rest else (e, v) ∷ rest

pub store : Entries → NodePath → Leaf → Entries
unfolding unrelated
store db p v = (p, v) ∷ unrelated p db

step_below : NodePath → NodePath → Option String
step_below [] [] = none
step_below [] (k ∷ q) = some k
step_below (j ∷ p) [] = none
step_below (j ∷ p) (k ∷ q) = if j == k then step_below p q else none

add_key : Option String → List String → List String
add_key none ks = ks
add_key (some k) ks = if elem k ks then ks else k ∷ ks

pub keys : Entries → NodePath → List String
unfolding step_below add_key
keys [] p = []
keys ((e, v) ∷ db) p = add_key (step_below p e) (keys db p)

pub keep : (String → Bool) → List String → List String
keep test [] = []
keep test (k ∷ ks) = let rest = keep test ks in if test k then k ∷ rest else rest

above_refl : (p : NodePath) → above p p ≡ true
above_refl [] = refl
above_refl (k ∷ p) = ground (arith, eq_refl k, above_refl p)

above_trans : (p q r : NodePath) → above p q ≡ true → above q r ≡ true → above p r ≡ true
above_trans [] q r h k = refl
above_trans (a ∷ p) [] r h k = ground arith
above_trans (a ∷ p) (b ∷ q) [] h k = ground arith
above_trans (a ∷ p) (b ∷ q) (c ∷ r) h k =
    ground (arith, eq_iff a b, eq_iff b c, eq_iff a c, above_trans p q r)

above_antisym : (p q : NodePath) → above p q ≡ true → above q p ≡ true → p ≡ q
above_antisym [] [] h k = refl
above_antisym [] (b ∷ q) h k = ground arith
above_antisym (a ∷ p) [] h k = ground arith
above_antisym (a ∷ p) (b ∷ q) h k = ground (arith, eq_iff a b, above_antisym p q)

find-without :
    (p : NodePath) (db : Entries) (q : NodePath)
    → find (without p db) q ≡ (if above p q then none else find db q)
unfolding find without
find-without p [] q = ground arith
find-without p ((e, v) ∷ db) q =
    ground (arith, find-without p db q, above_trans p e q, above_trans p q e)

above_linear :
    (a b c : NodePath) → above a c ≡ true → above b c ≡ true → above a b ≡ false → above b a ≡ true
above_linear a [] c h k n = refl
above_linear [] (y ∷ b) c h k n = ground arith
above_linear (x ∷ a) (y ∷ b) [] h k n = ground arith
above_linear (x ∷ a) (y ∷ b) (z ∷ c) h k n =
    ground (arith, eq_iff x y, eq_iff y x, eq_iff x z, eq_iff y z, above_linear a b c)

holds-without :
    (p : NodePath) (db : Entries) (q : NodePath)
    → above q p ≡ false
    → holds (without p db) q ≡ (if above p q then false else holds db q)
unfolding holds without
holds-without p [] q h = ground arith
holds-without p ((e, v) ∷ db) q h = ground (
  arith,
  holds-without p db q h,
  above_trans p q e,
  above_trans q p e,
  above_linear q p e,
  above_linear p q e,
)

holds-without_self : (p : NodePath) (db : Entries) → holds (without p db) p ≡ false
unfolding holds without
holds-without_self p [] = refl
holds-without_self p ((e, v) ∷ db) = ground (arith, holds-without_self p db)

find-unrelated :
    (p : NodePath) (db : Entries) (q : NodePath)
    → find (unrelated p db) q ≡ (if above p q || above q p then none else find db q)
unfolding find unrelated
find-unrelated p [] q = ground arith
find-unrelated p ((e, v) ∷ db) q = ground (
  arith,
  find-unrelated p db q,
  above_trans p e q,
  above_trans p q e,
  above_trans e q p,
  above_trans q e p,
)

holds-unrelated :
    (p : NodePath) (db : Entries) (q : NodePath)
    → above q p ≡ false
    → holds (unrelated p db) q ≡ (if above p q then false else holds db q)
unfolding holds unrelated
holds-unrelated p [] q h = ground arith
holds-unrelated p ((e, v) ∷ db) q h = ground (
  arith,
  holds-unrelated p db q h,
  above_trans p q e,
  above_trans q e p,
  above_linear q p e,
  above_linear p q e,
)

pub find-store :
    (db : Entries) (p : NodePath) (v : Leaf) (q : NodePath)
    → find (store db p v) q ≡ (
        if above p q
        then (if above q p then some v else none)
        else if above q p
        then none
        else find db q)
unfolding find store
find-store db p v q = ground (arith, find-unrelated p db q)

pub holds-store :
    (db : Entries) (p : NodePath) (v : Leaf) (q : NodePath)
    → holds (store db p v) q ≡ (if above q p then true else if above p q then false else holds db q)
unfolding holds store
holds-store db p v q = ground (arith, holds-unrelated p db q)

pub holds-find : (db : Entries) (p : NodePath) (v : Leaf) → find db p ≡ some v → holds db p ≡ true
unfolding find holds
holds-find [] p v h = ground arith
holds-find ((e, w) ∷ db) p v h = ground (arith, holds-find db p v)

is_key : Option String → String → Bool
is_key none k = false
is_key (some j) k = j == k

is_key-step_below :
    (p e : NodePath) (k : String) → is_key (step_below p e) k ≡ above (p ++ (k ∷ [])) e
unfolding is_key step_below
is_key-step_below [] [] k = refl
is_key-step_below [] (j ∷ e) k = ground (arith, eq_iff j k, eq_iff k j)
is_key-step_below (a ∷ p) [] k = refl
is_key-step_below (a ∷ p) (b ∷ e) k = ground (arith, is_key-step_below p e k)

elem-add_key :
    (o : Option String) (ks : List String) (k : String)
    → elem k (add_key o ks) ≡ (is_key o k || elem k ks)
unfolding add_key is_key
elem-add_key none ks k = refl
elem-add_key (some j) ks k = ground (arith, eq_iff j k)

pub elem-keys :
    (db : Entries) (p : NodePath) (k : String) → elem k (keys db p) ≡ holds db (p ++ (k ∷ []))
unfolding keys holds
elem-keys [] p k = refl
elem-keys ((e, v) ∷ db) p k =
    ground (
      arith,
      elem-add_key (step_below p e) (keys db p) k,
      is_key-step_below p e k,
      elem-keys db p k,
    )

pub elem-keep :
    (test : String → Bool) (ks : List String) (c : String)
    → elem c (keep test ks) ≡ (elem c ks && test c)
unfolding keep
elem-keep test [] c = refl
elem-keep test (k ∷ ks) c = ground (arith, elem-keep test ks c, eq_iff k c)

-- A key that no entry has under `p`, while the entries are few: the first free one of a supply.
pub fresh_of : List String → Entries → NodePath → Option String
fresh_of [] db p = none
fresh_of (k ∷ supply) db p =
    let rest = fresh_of supply db p in if holds db (p ++ (k ∷ [])) then rest else some k

pub fresh_of_fresh :
    (supply : List String) (db : Entries) (p : NodePath) (k : String)
    → fresh_of supply db p ≡ some k
    → holds db (p ++ (k ∷ [])) ≡ false
unfolding fresh_of
fresh_of_fresh [] db p k h = ground arith
fresh_of_fresh (j ∷ supply) db p k h = elim (Bool-cases (holds db (p ++ (j ∷ [])))) [
  | inl e ↦ fresh_of_fresh supply db p k (rw e at h)
  | inr e ↦ ground arith
]

abbrev supply : List String
supply = "-L0" ∷ "-L1" ∷ "-L2" ∷ []

abbrev between : String → String → String → Bool
between lo hi s = elim (compare lo s) [
  | Ordering.gt ↦ false
  | _ ↦ (elim (compare s hi) [ Ordering.gt ↦ false | _ ↦ true ])
]

-- Removals are refused at one path, so that error paths can be run too.
abbrev locked : NodePath
locked = "users" ∷ "locked" ∷ []

pub refusal : NodePath → Option String
refusal p = if above locked p then some "permission denied" else none

pub drop : Entries → NodePath → Entries
unfolding refusal without
drop db p = if above locked p then db else without p db

pub find-drop :
    (db : Entries) (p q : NodePath)
    → refusal p ≡ none
    → find (drop db p) q ≡ (if above p q then none else find db q)
unfolding drop
find-drop db p q h = ground (arith, find-without p db q)

pub holds-drop :
    (db : Entries) (p q : NodePath)
    → refusal p ≡ none
    → above q p ≡ false
    → holds (drop db p) q ≡ (if above p q then false else holds db q)
unfolding drop
holds-drop db p q h k = ground (arith, holds-without p db q)

pub holds-drop_self : (db : Entries) (p : NodePath) → refusal p ≡ none → holds (drop db p) p ≡ false
unfolding drop
holds-drop_self db p h = ground (arith, holds-without_self p db)

pub drop_refused : (db : Entries) (p : NodePath) (e : String) → refusal p ≡ some e → drop db p ≡ db
unfolding drop
drop_refused db p e h = ground arith

unfoldable pub memory : Database
unfolding find holds keys store keep fresh_of drop
memory = record {
  Db = Entries;
  read = find;
  exists = holds;
  children = keys;
  set_value = store;
  update_child_values = set_children store;
  remove_error = λ db p. refusal p;
  remove_value = drop;
  auto_key = fresh_of supply;
  within = between;
  query_equal = λ db p k s. keep (λ c. is_words s (find db (p ++ (c ∷ k ∷ [])))) (keys db p);
  query_between = λ db p k lo hi.
      keep (λ c. has_words (between lo hi) (find db (p ++ (c ∷ k ∷ [])))) (keys db p);
  read-set_value = find-store;
  exists-set_value = holds-store;
  update_child_values_lem = λ db p kvs. refl;
  read-remove_value = find-drop;
  exists-remove_value = holds-drop;
  exists-remove_value_self = holds-drop_self;
  remove_value_refused = drop_refused;
  exists_of_read = holds-find;
  elem-children = elem-keys;
  auto_key_fresh = λ db p. fresh_of_fresh supply db p;
  elem-query_equal = λ db p k s. elem-keep _ (keys db p);
  elem-query_between = λ db p k lo hi. elem-keep _ (keys db p);
}
