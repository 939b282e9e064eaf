-- ===== src/Limits/DynamoStore.antt =====
-- `DynamoCounterStore` (limits/dynamo-store.ts) over the two calls that it makes of DynamoDB. The
-- client is a parameter; an attribute that is absent or no finite number reads as 0 (`numberOf`).
pub mod Laws
use federal_mcps.Common.{ℕ, ◌/◌, String, true, false, Option, none, some, or_else}
use federal_mcps.Common.Int.{ℤ, sub_ℕ, pos}
use federal_mcps.Limits.CounterStore.{IncrementResult, CounterStore}

-- One `UpdateItem` with `ADD #count :by SET #expiresAt = :expiresAt`. With `room` it carries the
-- condition `attribute_not_exists(#count) OR #count <= :room` and asks for the old item on failure.
pub record UpdateItem : Type 0 where
  pub pk : String
  pub by : ℕ
  pub expires_at_seconds : ℕ
  pub room : Option ℤ

-- The reply carries the count: the new one, or the old one when the condition failed.
pub data UpdateReply : Type 0 where
  updated condition_failed : Option ℕ → UpdateReply
  update_error : UpdateReply

pub data GetReply : Type 0 where
  item : Option ℕ → GetReply
  get_error : GetReply

pub record DynamoLike : Type 1 where
  pub Table : Type 0
  pub update_item : UpdateItem → Table → UpdateReply × Table
  pub get_item : String → Table → GetReply × Table

abbrev pub number_of : Option ℕ → ℕ
number_of value = or_else value 0

-- `:room` is `max - by`, which is negative when `max < by`.
abbrev pub room_of : ℕ → Option ℕ → Option ℤ
room_of by none = none
room_of by (some m) = some (sub_ℕ m by)

abbrev pub increment_reply : UpdateReply → Option IncrementResult
increment_reply (updated n) = some (record { value = number_of n; applied = true })
increment_reply (condition_failed n) = some (record { value = number_of n; applied = false })
increment_reply update_error = none

abbrev pub get_reply : GetReply → Option ℕ
get_reply (item n) = some (number_of n)
get_reply get_error = none

abbrev pub update_request : String → ℕ → ℕ → Option ℕ → UpdateItem
update_request pk by expires_at most = record {
  pk = pk;
  by = by;
  expires_at_seconds = expires_at / 1000;
  room = room_of by most;
}

module _ (d : DynamoLike) where
  unfoldable pub increment :
      ℕ → String → ℕ → ℕ → Option ℕ → d.Table → Option IncrementResult × d.Table
  increment now pk by expires_at most t =
      let (reply, t') = d.update_item (update_request pk by expires_at most) t in
      (increment_reply reply, t')

  unfoldable pub get : String → d.Table → Option ℕ × d.Table
  get pk t = let (reply, t') = d.get_item pk t in (get_reply reply, t')

  unfoldable pub dynamo_store : CounterStore
  unfolding increment get
  dynamo_store = record { State = d.Table; increment = increment; get = get }
