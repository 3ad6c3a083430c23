-- ===== src/Engine/Journal/Documents.antt =====
-- src/engine/mod.rs: writing a batch of documents twice, the first time only in part.
use opencode_native_memory.Prelude.{
  ℕ, zero, suc, ◌≡◌, refl, Option, none, some, List, [], ◌∷◌, String, str_eq, arith, take,
  if◌then◌else◌,
}
use opencode_native_memory.Prelude.Map.{Map, get, insert, get-insert}
use opencode_native_memory.State.Defs.{PendingDocument, PendingUpsert}
use opencode_native_memory.Engine.Journal.{pending_id, upsert_documents}

abbrev or_else : Option PendingDocument → Option PendingDocument → Option PendingDocument
or_else none b = b
or_else (some a) b = some a

-- the last document of a batch under a key
last_of : List PendingUpsert → String → Option PendingDocument
last_of [] k = none
last_of (p ∷ ps) k =
    or_else (last_of ps k) (if str_eq (pending_id p) k then some p.document else none)

get-upsert_documents :
    (m : Map PendingDocument) (ps : List PendingUpsert) (k : String)
    → get (upsert_documents m ps) k ≡ or_else (last_of ps k) (get m k)
unfolding upsert_documents last_of
get-upsert_documents m [] k = refl
get-upsert_documents m (p ∷ ps) k = ground (
  arith,
  get-upsert_documents (insert m (pending_id p) p.document) ps k,
  get-insert m (pending_id p) p.document k,
)

last_of-take :
    (n : ℕ) (ps : List PendingUpsert) (k : String)
    → last_of ps k ≡ none
    → last_of (take n ps) k ≡ none
unfolding last_of
last_of-take zero ps k h = refl
last_of-take (suc n) [] k h = refl
last_of-take (suc n) (p ∷ ps) k h = ground (arith, last_of-take n ps k)

-- Writing the whole batch over a part of it gives what writing it once gives.
pub upsert_documents-again :
    (m : Map PendingDocument) (n : ℕ) (ps : List PendingUpsert) (k : String)
    → get (upsert_documents (upsert_documents m (take n ps)) ps) k ≡ get (upsert_documents m ps) k
upsert_documents-again m n ps k = ground (
  arith,
  get-upsert_documents (upsert_documents m (take n ps)) ps k,
  get-upsert_documents m (take n ps) k,
  get-upsert_documents m ps k,
  last_of-take n ps k,
)
