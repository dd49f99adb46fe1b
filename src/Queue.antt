-- ===== src/Queue.antt =====
-- arch/baremetal/mpmp_queue.c and csp_queue.c: the ring of items under every queue of the stack.
-- Each function is one critical section. The item memory is a list of whole items, so that
-- `uxItemSize` only matters where it is tested; timeouts are ignored by this port.
pub mod Fifo
pub mod Order
mod Tests
use libcsp_dphi.Base.{
  ℕ, ◌+◌, ◌-◌, Bool, true, false, ◌||◌, ◌==◌, ltb, if◌then◌else◌, Option, none, some, List,
  get_elem?, set, u32,
}

-- StaticQueue_t
pub record Queue {ℓ} (A : Type ℓ) : Type ℓ where
  pub slots : List A
  pub len : ℕ
  pub head : ℕ
  pub tail : ℕ
  pub count : ℕ

-- The index after `i`: `if ( ++i == len ) i = 0`.
abbrev pub next : ℕ → ℕ → ℕ
next len i = if u32 (i + 1) == len then 0 else u32 (i + 1)

module _ {ℓ} {A : Type ℓ} where
  -- xQueueCreateStatic: `storage` is `none` for a NULL buffer, `here` false for a NULL queue.
  unfoldable pub create_static : ℕ → ℕ → Option (List A) → Bool → Option (Queue A)
  create_static len item_size none here = none
  create_static len item_size (some storage) here =
      if len == 0 || item_size == 0
      then none
      else if here
      then some (record { slots = storage; len = len; head = 0; tail = 0; count = 0 })
      else none

  -- xQueueSend on a queue and an item that are not NULL; csp_queue_enqueue and its ISR version.
  unfoldable pub enqueue : Queue A → A → Queue A × Bool
  enqueue q item =
      if ltb q.count q.len
      then (
        record q {
          slots = set q.slots q.head item;
          head = next q.len q.head;
          count = u32 (q.count + 1);
        },
        true,
      )
      else (q, false)

  -- xQueueReceive; csp_queue_dequeue and its ISR version.
  unfoldable pub dequeue : Queue A → Queue A × Option A
  dequeue q =
      if ltb 0 q.count
      then (record q { tail = next q.len q.tail; count = q.count - 1 }, get_elem? q.slots q.tail)
      else (q, none)

  -- The same with the tests on the two pointers.
  unfoldable pub send : Option (Queue A) → Option A → Option (Queue A) × Bool
  send none item = (none, false)
  send (some q) none = (some q, false)
  send (some q) (some item) = let (q', done) = enqueue q item in (some q', done)

  -- uxQueueMessagesWaiting
  unfoldable pub messages_waiting : Option (Queue A) → ℕ
  messages_waiting none = 0
  messages_waiting (some q) = q.count

  -- uxQueueSpacesAvailable, which csp_queue_free returns: nothing is freed.
  unfoldable pub spaces_available : Option (Queue A) → ℕ
  spaces_available none = 0
  spaces_available (some q) = q.len - q.count

  -- xQueueReset
  unfoldable pub reset : Option (Queue A) → Option (Queue A) × Bool
  reset none = (none, false)
  reset (some q) = (some (record q { head = 0; tail = 0; count = 0 }), true)
