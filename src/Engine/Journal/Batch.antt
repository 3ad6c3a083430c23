-- ===== src/Engine/Journal/Batch.antt =====
-- src/engine/mod.rs: a batch that was journaled is found again, whole and in order.
use opencode_native_memory.Prelude.{
  false, ◌||◌, ◌≡◌, refl, sym, subst, ◌∙◌, some, List, [], ◌∷◌, ◌++◌, String, str_eq, eq_refl,
  arith, map, any, if◌then◌else◌,
}
use mathlib.Core.List.{append_assoc, append-nil}
use opencode_native_memory.Prelude.Map.{Map, get, insert, contains_key}
use opencode_native_memory.Prelude.Result.{ok}
use opencode_native_memory.State.Defs.{PendingUpsert}
use opencode_native_memory.State.Validate.{contains}
use opencode_native_memory.Engine.Journal.{pending_id, insert_pending, collect, check_fresh}

module _ {ℓ} {V : Type ℓ} where
  get-append :
      (m n : Map V) (k : String) → get (m ++ n) k ≡ (if contains_key m k then get m k else get n k)
  unfolding get
  get-append [] n k = refl
  get-append ((j, v) ∷ m) n k = ground (arith, get-append m n k)

  insert-absent :
      (m : Map V) (k : String) (v : V) → contains_key m k ≡ false → insert m k v ≡ m ++ (k, v) ∷ []
  unfolding get insert
  insert-absent [] k v h = refl
  insert-absent ((j, w) ∷ m) k v h = ground (arith, insert-absent m k v)

  contains_key-append_one :
      (m : Map V) (k : String) (v : V) (x : String)
      → contains_key (m ++ (k, v) ∷ []) x ≡ (contains_key m x || str_eq k x)
  unfolding get
  contains_key-append_one [] k v x = ground arith
  contains_key-append_one ((j, w) ∷ m) k v x = ground (arith, contains_key-append_one m k v x)

abbrev pub entry : PendingUpsert → String × PendingUpsert
entry p = (pending_id p, p)

-- The keys of `m` are those seen so far.
abbrev SameKeys : Map PendingUpsert → List String → Type 0
SameKeys m seen = (x : String) → contains_key m x ≡ contains seen x

SameKeys-next :
    (m : Map PendingUpsert) (seen : List String) (p : PendingUpsert)
    → SameKeys m seen
    → SameKeys (m ++ entry p ∷ []) (pending_id p ∷ seen)
unfolding any
SameKeys-next m seen p same x = ground (arith, same x, contains_key-append_one m (pending_id p) p x)

check_fresh-parts :
    (seen : List String) (journal : Map PendingUpsert) (id : String) (ids : List String)
    → check_fresh seen journal (id ∷ ids) ≡ ok tt
    → (contains seen id ≡ false) × (check_fresh (id ∷ seen) journal ids ≡ ok tt)
unfolding check_fresh
check_fresh-parts seen journal id ids h = ground arith

insert_pending-fresh :
    (m : Map PendingUpsert) (seen : List String) (journal : Map PendingUpsert)
    (ps : List PendingUpsert)
    → SameKeys m seen
    → check_fresh seen journal (map pending_id ps) ≡ ok tt
    → insert_pending m ps ≡ m ++ map entry ps
unfolding insert_pending
insert_pending-fresh m seen journal [] same h = sym (append-nil m)
insert_pending-fresh m seen journal (p ∷ ps) same h =
    let (fresh, rest) = check_fresh-parts seen journal (pending_id p) (map pending_id ps) h in
    rw (insert-absent m (pending_id p) p (same (pending_id p) ∙ fresh)) (
      insert_pending-fresh (m ++ entry p ∷ []) (pending_id p ∷ seen) journal ps
        (SameKeys-next m seen p same) rest
      ∙ append_assoc m (entry p ∷ []) (map entry ps))

collect-fresh :
    (m : Map PendingUpsert) (seen : List String) (journal : Map PendingUpsert)
    (ps : List PendingUpsert)
    → SameKeys m seen
    → check_fresh seen journal (map pending_id ps) ≡ ok tt
    → collect (m ++ map entry ps) (map pending_id ps) ≡ ok ps
unfolding collect get
collect-fresh m seen journal [] same h = refl
collect-fresh m seen journal (p ∷ ps) same h =
    let (fresh, rest) = check_fresh-parts seen journal (pending_id p) (map pending_id ps) h in
    let later =
      collect-fresh (m ++ entry p ∷ []) (pending_id p ∷ seen) journal ps
        (SameKeys-next m seen p same) rest in
    let later' =
      subst (λ x. collect x (map pending_id ps) ≡ ok ps)
        (append_assoc m (entry p ∷ []) (map entry ps)) later in
    let found : get (m ++ entry p ∷ map entry ps) (pending_id p) ≡ some p = ground (
      arith,
      get-append m (entry p ∷ map entry ps) (pending_id p),
      same (pending_id p),
      fresh,
      eq_refl (pending_id p),
    ) in
    ground (arith, found, later')

-- What the journal holds after a batch of new items is entered in an empty one, and that the batch
-- is found in it again.
pub insert_pending-empty :
    (ps : List PendingUpsert)
    → check_fresh [] [] (map pending_id ps) ≡ ok tt
    → insert_pending [] ps ≡ map entry ps
unfolding any get
insert_pending-empty ps h = insert_pending-fresh [] [] [] ps (λ x. refl) h

pub collect-empty :
    (ps : List PendingUpsert)
    → check_fresh [] [] (map pending_id ps) ≡ ok tt
    → collect (map entry ps) (map pending_id ps) ≡ ok ps
unfolding any get
collect-empty ps h = collect-fresh [] [] [] ps (λ x. refl) h
