-- ===== src/Session/Completion.antt =====
-- The form of a reply: lines without a tag, and then one line with the tag of the command.
pub mod Greetings
pub mod Messages
pub mod Transfers
pub mod Replies
use imapped_lightmode.Base.{
  ℕ, ◌≡◌, refl, Bool, true, false, ◌||◌, Option, none, some, List, [], ◌∷◌, ◌++◌, if◌then◌else◌,
  All, Result, ok, err,
}
use imapped_lightmode.Text.{Text, lit}
use imapped_lightmode.Text.Find.{starts_with}
use imapped_lightmode.Protocol
use imapped_lightmode.Protocol.{bad, no}
use imapped_lightmode.Db
use imapped_lightmode.Db.{Db, Action, and_then, ◌>>=◌}

-- A line that completes the command of the tag.
pub data Completion (tag line : Text) : Type 0 where
  says_ok : (message : Text) → line ≡ Protocol.ok tag message → Completion tag line
  says_no : (code message : Text) → line ≡ no tag code message → Completion tag line
  says_bad : (message : Text) → line ≡ bad tag message → Completion tag line

-- A line of data, or the line that asks to go on.
unfoldable pub untagged : Text → Bool
untagged line = starts_with (lit "* ") line || starts_with (lit "+ ") line

abbrev pub AllUntagged : List Text → Type 0
AllUntagged = All (λ line. untagged line ≡ true)

-- Some lines without a tag, and at the end the line that completes the command.
pub data Complete (tag : Text) : List Text → Type 0 where
  ends : {line : Text} → Completion tag line → Complete tag (line ∷ [])
  follows :
      {line : Text} {lines : List Text}
      → untagged line ≡ true
      → Complete tag lines
      → Complete tag (line ∷ lines)

-- A condition on the value of a result that is one.
abbrev pub OnOk {ℓ} : {A : Type ℓ} → (A → Type 0) → Result A → Type 0
OnOk P (err e) = Unit
OnOk P (ok a) = P a

abbrev pub CompleteReply : Text → Result (List Text) → Type 0
CompleteReply tag = OnOk (Complete tag)

pub ends_ok : (tag message : Text) → Complete tag (Protocol.ok tag message ∷ [])
ends_ok tag message = ends (says_ok message refl)

pub ends_no : (tag code message : Text) → Complete tag (no tag code message ∷ [])
ends_no tag code message = ends (says_no code message refl)

pub ends_bad : (tag message : Text) → Complete tag (bad tag message ∷ [])
ends_bad tag message = ends (says_bad message refl)

pub append-Complete :
    (tag line : Text) (lines : List Text)
    → AllUntagged lines
    → Completion tag line
    → Complete tag (lines ++ line ∷ [])
append-Complete tag line [] all completion = ends completion
append-Complete tag line (first ∷ lines) all completion =
    follows all.0 (append-Complete tag line lines all.1 completion)

pub if-Complete :
    (tag : Text) (test : Bool) (left right : List Text)
    → Complete tag left
    → Complete tag right
    → Complete tag (if test then left else right)
if-Complete tag true left right l r = l
if-Complete tag false left right l r = r

pub if-AllUntagged :
    (test : Bool) (left right : List Text)
    → AllUntagged left
    → AllUntagged right
    → AllUntagged (if test then left else right)
if-AllUntagged true left right l r = l
if-AllUntagged false left right l r = r

-- What holds of the first result and is handed on by what follows it.
module _ {ℓ κ} {A : Type ℓ} {B : Type κ} (P : A → Type 0) (Q : B → Type 0) where
  pub OnOk-and_then :
      (r : Result A) (f : A → Action B) (db : Db)
      → OnOk P r
      → ((a : A) (next : Db) → P a → OnOk Q (f a next).0)
      → OnOk Q (and_then r f db).0
  OnOk-and_then (err e) f db h k = tt
  OnOk-and_then (ok a) f db h k = k a db h

-- The same of whatever an action comes to.
abbrev pub Yields {ℓ} : {A : Type ℓ} → (A → Type 0) → Action A → Type 0
Yields P m = (db : Db) → OnOk P (m db).0

pub Yields-bind {ℓ κ} :
    {A : Type ℓ} {B : Type κ} (P : A → Type 0) (Q : B → Type 0) (m : Action A) (f : A → Action B)
    → Yields P m
    → ((a : A) → P a → Yields Q (f a))
    → Yields Q (m >>= f)
Yields-bind P Q m f h k db = OnOk-and_then P Q (m db).0 f (m db).1 (h db) (λ a next p. k a p next)

abbrev pub Any {ℓ} : {A : Type ℓ} → A → Type 0
Any a = Unit

pub OnOk-Any {ℓ} : {A : Type ℓ} (r : Result A) → OnOk Any r
OnOk-Any (err e) = tt
OnOk-Any (ok a) = tt

-- An action whose value does not matter to what follows.
pub Yields-then {ℓ κ} :
    {A : Type ℓ} {B : Type κ} (Q : B → Type 0) (m : Action A) (f : A → Action B)
    → ((a : A) → Yields Q (f a))
    → Yields Q (m >>= f)
Yields-then Q m f k = Yields-bind Any Q m f (λ db. OnOk-Any (m db).0) (λ a any. k a)
