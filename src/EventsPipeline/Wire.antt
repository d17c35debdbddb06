-- ===== src/EventsPipeline/Wire.antt =====
-- What the handlers accept: the Zod schemas of functions/events-pipeline/src/handlers. What
-- `JSON.parse` made of a text and the address test of Zod are parameters.
use microservices_running.Prelude.{
  ℕ, ◌*◌, ◌/◌, ◌%◌, ◌+◌, String, Bool, not, ◌&&◌, ◌||◌, Option, none, some, [], ◌∷◌, str_eq, ◌==◌,
  if◌then◌else◌,
}
use microservices_running.EventsPipeline.Domain.{Payload}

-- A number is a fraction; its denominator is not 0.
pub record Number : Type 0 where
  pub negative : Bool
  pub numerator : ℕ
  pub denominator : ℕ

mutual
  pub data Json : Type 0 where
    null : Json
    flag : Bool → Json
    number : Number → Json
    text : String → Json
    array : Items → Json
    object : Members → Json

  pub data Items : Type 0 where
    no_items : Items
    item : Json → Items → Items

  pub data Members : Type 0 where
    no_members : Members
    member : String → Json → Members → Members

pub record Reader : Type 0 where
  pub parsed : (json : String) → Json
  pub is_email : String → Bool

module _ {A : Type 0} where
  infixl 5 ◌>>=◌
  abbrev pub ◌>>=◌ : {B : Type 0} → Option A → (A → Option B) → Option B
  ◌>>=◌ none f = none
  ◌>>=◌ (some a) f = f a

-- The value of a property, if there is one.
unfoldable pub property : Reader → (name : String) → Payload → Option Json
property reader name [] = none
property reader name ((key, json) ∷ rest) =
    if str_eq key name then some (reader.parsed json) else property reader name rest

unfoldable pub member_of : (name : String) → Members → Option Json
member_of name no_members = none
member_of name (member key value rest) = if str_eq key name then some value else member_of name rest

-- `z.string()`
abbrev pub string : Option Json → Option String
string (some (text s)) = some s
string _ = none

-- `z.string().min(1)`
abbrev pub nonempty_string : Option Json → Option String
nonempty_string json = do s ← string json; if str_eq s "" then none else some s

-- `z.string().email()`
abbrev pub email_string : Reader → Option Json → Option String
email_string reader json = do s ← string json; if reader.is_email s then some s else none

abbrev is_zero : Number → Bool
is_zero n = n.numerator == 0

abbrev is_int : Number → Bool
is_int n = n.numerator % n.denominator == 0

-- `z.number()`
abbrev numeric : Option Json → Option Number
numeric (some (number n)) = some n
numeric _ = none

-- `z.number().int().nonnegative()`
abbrev pub nonnegative_int : Option Json → Option ℕ
nonnegative_int json = do
  n ← numeric json
  if is_int n && (not n.negative || is_zero n) then some (n.numerator / n.denominator) else none

-- `z.number().int().positive()`
abbrev pub positive_int : Option Json → Option ℕ
positive_int json = do
  n ← numeric json
  if is_int n && not n.negative && not (is_zero n) then some (n.numerator / n.denominator) else none

-- `z.number().positive()`
abbrev pub positive : Option Json → Option Number
positive json = do n ← numeric json; if not n.negative && not (is_zero n) then some n else none

-- `z.record(z.string(), z.unknown()).optional()`
abbrev pub optional_record : Option Json → Option (Option Members)
optional_record none = some none
optional_record (some (object members)) = some (some members)
optional_record (some _) = none

-- `Math.round(ttlSeconds / 60)`
unfoldable pub minutes : Number → ℕ
minutes n = (2 * n.numerator + 60 * n.denominator) / (120 * n.denominator)

-- The address, and the rest of what a schema returns.
pub record Addressed (A : Type 0) : Type 0 where
  pub email : String
  pub rest : A

abbrev pub addressed : {A : Type 0} → Option String → Option A → Option (Addressed A)
addressed none rest = none
addressed (some email) none = none
addressed (some email) (some rest) = some (record { email = email; rest = rest })

-- `OrderNumberSchema`
pub record OrderNumber : Type 0 where
  pub raw : String
  pub formatted : String

abbrev order_number_members : Members → Option OrderNumber
order_number_members members = do
  raw ← nonempty_string (member_of "raw" members)
  formatted ← nonempty_string (member_of "formatted" members)
  some (record { raw = raw; formatted = formatted })

abbrev present : {A : Type 0} → Option A → Option (Option A)
present none = none
present (some a) = some (some a)

unfoldable pub optional_order_number : Option Json → Option (Option OrderNumber)
unfolding member_of
optional_order_number none = some none
optional_order_number (some (object members)) = present (order_number_members members)
optional_order_number (some _) = none
