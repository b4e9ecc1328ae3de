-- ===== src/Database.antt =====
-- The Firebase realtime database as the app calls it (DatabaseReference, DataSnapshot and
-- DatabaseQuery): a tree of texts and flags addressed by paths. It is third-party code, so it is
-- an interface: the operations that the app uses, and their documented behaviour as laws.
pub mod Memory
pub mod Writes
use on_my_way.Base.{
  String, ◌≡◌, Bool, true, false, ◌&&◌, Option, none, some, List, [], ◌∷◌, ◌++◌, ◌==◌, elem,
  if◌then◌else◌,
}

pub data Leaf : Type 0 where
  words : String → Leaf
  flag : Bool → Leaf

abbrev pub NodePath : Type 0
NodePath = List String

-- `p` is `q` or above it.
abbrev pub above : List String → List String → Bool
above [] q = true
above (k ∷ p) [] = false
above (k ∷ p) (j ∷ q) = k == j && above p q

-- Two paths of which neither is the other or above it.
abbrev pub apart : NodePath → NodePath → Bool
apart p q = if above p q then false else if above q p then false else true

-- `snapshot.value as? String`
abbrev pub as_string : Option Leaf → Option String
as_string none = none
as_string (some (words s)) = some s
as_string (some (flag b)) = none

-- Whether a value is the text `s`.
abbrev pub is_words : String → Option Leaf → Bool
is_words s none = false
is_words s (some (words t)) = t == s
is_words s (some (flag b)) = false

-- Whether a value is a text that passes a test.
abbrev pub has_words : (String → Bool) → Option Leaf → Bool
has_words test none = false
has_words test (some (words t)) = test t
has_words test (some (flag b)) = false

-- `updateChildValues` of texts writes each child, one after the other.
abbrev pub set_children {ℓ} :
    {D : Type ℓ} → (D → List String → Leaf → D) → D → List String → List (String × String) → D
set_children set db p [] = db
set_children set db p ((k, s) ∷ rest) = set_children set (set db (p ++ (k ∷ [])) (words s)) p rest

pub record Database : Type 1 where
  pub Db : Type 0
  pub read : Db → NodePath → Option Leaf
  pub exists : Db → NodePath → Bool
  pub children : Db → NodePath → List String
  pub set_value : Db → NodePath → Leaf → Db
  pub update_child_values : Db → NodePath → List (String × String) → Db
  -- What the completion block of `removeValue` is given, and the tree afterwards.
  pub remove_error : Db → NodePath → Option String
  pub remove_value : Db → NodePath → Db
  -- The key of `childByAutoId()`.
  pub auto_key : Db → NodePath → Option String
  -- The texts between two bounds, in the database's order of texts.
  pub within : String → String → String → Bool
  pub query_equal : Db → NodePath → String → String → List String
  pub query_between : Db → NodePath → String → String → String → List String
  -- A write replaces what stood at its path and below, and a text or flag above it.
  pub read-set_value :
      (db : Db) (p : NodePath) (v : Leaf) (q : NodePath)
      → read (set_value db p v) q ≡ (
          if above p q
          then (if above q p then some v else none)
          else if above q p
          then none
          else read db q)
  pub exists-set_value :
      (db : Db) (p : NodePath) (v : Leaf) (q : NodePath)
      → exists (set_value db p v) q
        ≡ (if above q p then true else if above p q then false else exists db q)
  pub update_child_values_lem :
      (db : Db) (p : NodePath) (kvs : List (String × String))
      → update_child_values db p kvs ≡ set_children set_value db p kvs
  pub read-remove_value :
      (db : Db) (p q : NodePath)
      → remove_error db p ≡ none
      → read (remove_value db p) q ≡ (if above p q then none else read db q)
  pub exists-remove_value :
      (db : Db) (p q : NodePath)
      → remove_error db p ≡ none
      → above q p ≡ false
      → exists (remove_value db p) q ≡ (if above p q then false else exists db q)
  pub exists-remove_value_self :
      (db : Db) (p : NodePath) → remove_error db p ≡ none → exists (remove_value db p) p ≡ false
  -- A refused removal is rolled back.
  pub remove_value_refused :
      (db : Db) (p : NodePath) (e : String) → remove_error db p ≡ some e → remove_value db p ≡ db
  pub exists_of_read : (db : Db) (p : NodePath) (v : Leaf) → read db p ≡ some v → exists db p ≡ true
  pub elem-children :
      (db : Db) (p : NodePath) (k : String) → elem k (children db p) ≡ exists db (p ++ (k ∷ []))
  pub auto_key_fresh :
      (db : Db) (p : NodePath) (k : String)
      → auto_key db p ≡ some k
      → exists db (p ++ (k ∷ [])) ≡ false
  pub elem-query_equal :
      (db : Db) (p : NodePath) (k s c : String)
      → elem c (query_equal db p k s)
        ≡ (elem c (children db p) && is_words s (read db (p ++ (c ∷ k ∷ []))))
  pub elem-query_between :
      (db : Db) (p : NodePath) (k lo hi c : String)
      → elem c (query_between db p k lo hi)
        ≡ (elem c (children db p) && has_words (within lo hi) (read db (p ++ (c ∷ k ∷ []))))
