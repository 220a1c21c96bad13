-- ===== src/Wire.antt =====
-- What the host and the guest of agentfork/sandbox/vsock.py and agentfork/sandbox/guest_agent.py say
-- to one another: JSON values, one to a line. A byte is a number, and a newline is 10.
pub mod Line
pub mod Client
pub mod Agent
pub mod Framing
pub mod Exchange
pub mod Tests
use agentfork.Base.{
  ℕ, zero, suc, ◌*◌, ◌/◌, String, Bool, true, false, Option, none, some, List, [], ◌∷◌, same,
  if◌then◌else◌,
}
use agentfork.Base.Int.{ℤ, pos, negsuc, negated}

-- An `int`, or the `float` that is the integer over that power of two, as every finite one is
pub data Number : Type 0 where
  whole : ℤ → Number
  binary : ℤ → ℕ → Number

-- The sign of a number is that of its numerator.
abbrev pub numerator : Number → ℤ
numerator (whole n) = n
numerator (binary n k) = n

abbrev pub power_of_two : ℕ → ℕ
power_of_two zero = 1
power_of_two (suc k) = 2 * power_of_two k

-- `int(...)` of a number cuts off towards zero.
abbrev pub cut_off : Number → ℤ
cut_off (whole n) = n
cut_off (binary (pos n) k) = pos (n / power_of_two k)
cut_off (binary (negsuc n) k) = negated (suc n / power_of_two k)

-- A value of the `json` module, with finite numbers
mutual
  pub data Json : Type 0 where
    null : Json
    boolean : Bool → Json
    number : Number → Json
    text : String → Json
    array : Items → Json
    object : Fields → Json

  pub data Items : Type 0 where
    end : Items
    item : Json → Items → Items

  pub data Fields : Type 0 where
    done : Fields
    field : String → Json → Fields → Fields

-- `value.get(key)` of an object
unfoldable pub get : String → Fields → Option Json
get k done = none
get k (field j v fs) = if same j k then some v else get k fs

unfoldable pub texts : List String → Items
texts [] = end
texts (s ∷ ss) = item (text s) (texts ss)

-- The modules `json` and `base64`, with what is documented of them
pub record Codec : Type 0 where
  pub dumps : Json → List ℕ
  pub loads : List ℕ → Option Json
  pub encode : List ℕ → String
  pub decode : String → Option (List ℕ)
