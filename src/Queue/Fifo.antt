-- ===== src/Queue/Fifo.antt =====
-- What a client may expect of a queue: a list of at most `len` items, the oldest first.
use libcsp_dphi.Base.{
  ℕ, Bool, true, false, ltb, if◌then◌else◌, Option, none, some, List, [], ◌∷◌, ◌++◌, length,
}

module _ {ℓ} {A : Type ℓ} where
  unfoldable pub put : ℕ → List A → A → List A × Bool
  put len items x = if ltb (length items) len then (items ++ x ∷ [], true) else (items, false)

  unfoldable pub pick : List A → List A × Option A
  pick [] = ([], none)
  pick (x ∷ items) = (items, some x)

-- What a client asks of a queue.
pub data Op {ℓ} (A : Type ℓ) : Type ℓ where
  sends : A → Op A
  receives : Op A

-- What it sees of each call.
pub data Reply {ℓ} (A : Type ℓ) : Type ℓ where
  sent : Bool → Reply A
  received : Option A → Reply A

module _ {ℓ} {A : Type ℓ} where
  unfoldable pub run : ℕ → List A → List (Op A) → List (Reply A)
  run len items [] = []
  run len items (sends x ∷ ops) =
      let (items', done) = put len items x in sent done ∷ run len items' ops
  run len items (receives ∷ ops) =
      let (items', item) = pick items in received item ∷ run len items' ops
