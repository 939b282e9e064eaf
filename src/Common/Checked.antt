-- ===== src/Common/Checked.antt =====
-- A value, or the message of the error that is thrown in its place.
use Prim.Native.String.{String}

pub data Checked (A : Type 0) : Type 0 where
  valid : A → Checked A
  invalid : String → Checked A

module _ {A B : Type 0} where
  infixl 5 ◌>>=◌
  abbrev pub ◌>>=◌ : Checked A → (A → Checked B) → Checked B
  valid a >>= f = f a
  invalid message >>= f = invalid message
