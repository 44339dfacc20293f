-- ===== src/Live/Codec.antt =====
-- src/live/mq_codec.cpp: live messages as lines of text whose fields are parted by `|`.
--
-- The stream output of numbers and `stod` and `stoll` are arguments. The symbol registry is passed along, as
-- `decode` may give a symbol a number.
pub mod Text
pub mod Encode
pub mod Decode
pub mod Split
pub mod Fields
pub mod RoundTrip
mod Tests
use regime_flow.Base.Word.{u64}
use regime_flow.Base.Double.{Double}
use regime_flow.Base.Int.{negsuc, pos, ℤ}
use regime_flow.Live.Message.{BookLevel, LiveMessage}
use regime_flow.Base.{◌%◌, ◌-◌, ◌^◌, ℕ, Option, String, some, none}

-- Nothing stands for an exception of `stod` and `stoll`.
pub record NumberText (R : Type 0) : Type 0 where
  pub print : R → String
  pub print_ℤ : ℤ → String
  pub print_ℕ : ℕ → String
  pub stod : String → Option R
  pub stoll : String → Option ℤ

-- How a call of `decode` ends: with an exception, with `nullopt`, or with a message.
pub data Decoded (R : Type 0) : Type 0 where
  thrown : Decoded R
  nullopt : Decoded R
  message : LiveMessage R → Decoded R

infixl 5 ◌>>=◌
abbrev pub ◌>>=◌ : {A B : Type 0} → Option A → (A → Option B) → Option B
none >>= f = none
some a >>= f = f a

-- `static_cast<Volume>`
abbrev pub volume_of : ℤ → ℕ
volume_of (pos n) = u64 n
volume_of (negsuc n) = u64 (2 ^ 64 - 1 - n % 2 ^ 64)

module _ (num : Double) where
  open num use {Real, nil}

  abbrev pub blank_level : BookLevel Real
  blank_level = record { price = nil; quantity = nil; num_orders = 0 }
