-- ===== src/ImapServer/StoreFlags/Laws.antt =====
-- The flags of a message as a set up to case.
use imapped_lightmode.Base.{
  ◌≡◌, refl, Bool, true, false, not, ◌&&◌, ◌||◌, List, [], ◌∷◌, ◌++◌, arith, any, any-append,
  retain, Bool-cases, inl, inr,
}
use imapped_lightmode.Text.{Text}
use imapped_lightmode.Text.Case.{
  eq_ignore_ascii_case, eq_ignore_ascii_case_comm, eq_ignore_ascii_case_trans,
}
use imapped_lightmode.Protocol.{StoreMode, replace, add, remove}
use imapped_lightmode.ImapServer.StoreFlags.{has_flag, push_new, apply_store_flags}

has_flag-append :
    (xs ys : List Text) (f : Text) → has_flag (xs ++ ys) f ≡ (has_flag xs f || has_flag ys f)
unfolding has_flag
has_flag-append xs ys f = any-append (λ e. eq_ignore_ascii_case e f) xs ys

-- Flags that are equal up to case are in the same lists.
has_flag_congr :
    (xs : List Text) (e f : Text) → eq_ignore_ascii_case e f ≡ true → has_flag xs e ≡ has_flag xs f
unfolding has_flag
has_flag_congr [] e f h = refl
has_flag_congr (x ∷ xs) e f h = ground (
  arith,
  has_flag_congr xs e f h,
  eq_ignore_ascii_case_trans x e f,
  eq_ignore_ascii_case_trans x f e,
  eq_ignore_ascii_case_comm e f,
)

has_flag-cons :
    (x : Text) (xs : List Text) (f : Text)
    → has_flag (x ∷ xs) f ≡ (eq_ignore_ascii_case x f || has_flag xs f)
unfolding has_flag
has_flag-cons x xs f = refl

has_flag-nil : (f : Text) → has_flag [] f ≡ false
unfolding has_flag
has_flag-nil f = refl

has_flag-push_new :
    (flags out : List Text) (f : Text)
    → has_flag (push_new out flags) f ≡ (has_flag out f || has_flag flags f)
unfolding push_new
has_flag-push_new [] out f = ground (arith, has_flag-nil f)
has_flag-push_new (x ∷ flags) out f = ground (
  arith,
  has_flag-push_new flags out f,
  has_flag-push_new flags (out ++ x ∷ []) f,
  has_flag-append out (x ∷ []) f,
  has_flag-cons x flags f,
  has_flag-cons x [] f,
  has_flag-nil f,
  has_flag_congr out x f,
)

asked-has_flag :
    (requested : List Text) (e : Text)
    → any (λ flag. eq_ignore_ascii_case e flag) requested ≡ has_flag requested e
unfolding has_flag
asked-has_flag [] e = refl
asked-has_flag (x ∷ requested) e =
    ground (arith, asked-has_flag requested e, eq_ignore_ascii_case_comm e x)

abbrev not_asked : List Text → Text → Bool
not_asked requested existing = not (any (λ flag. eq_ignore_ascii_case existing flag) requested)

has_flag-remove :
    (requested current : List Text) (f : Text)
    → has_flag (retain (not_asked requested) current) f
      ≡ (has_flag current f && not (has_flag requested f))
has_flag-remove requested [] f = ground (arith, has_flag-nil f)
has_flag-remove requested (x ∷ current) f = ground (
  arith,
  has_flag-remove requested current f,
  asked-has_flag requested x,
  has_flag-cons x (retain (not_asked requested) current) f,
  has_flag-cons x current f,
  has_flag_congr requested x f,
)

-- The flags that a STORE leaves, as a set up to case: exactly the requested ones, the old and the
-- requested ones, or the old ones that are not requested.
abbrev pub expected : StoreMode → Bool → Bool → Bool
expected replace old asked = asked
expected add old asked = old || asked
expected remove old asked = old && not asked

-- After a STORE, a flag is on the message exactly when it is expected there: case does not matter.
pub has_flag-apply_store_flags :
    (current : List Text) (mode : StoreMode) (requested : List Text) (f : Text)
    → has_flag (apply_store_flags current mode requested) f
      ≡ expected mode (has_flag current f) (has_flag requested f)
unfolding apply_store_flags
has_flag-apply_store_flags current replace requested f =
    ground (arith, has_flag-push_new requested [] f, has_flag-nil f)
has_flag-apply_store_flags current add requested f = has_flag-push_new requested current f
has_flag-apply_store_flags current remove requested f = has_flag-remove requested current f

-- No two flags of the list are equal up to case.
abbrev pub IsDistinct : List Text → Type 0
IsDistinct [] = Unit
IsDistinct (x ∷ xs) = (has_flag xs x ≡ false) × IsDistinct xs

IsDistinct-snoc :
    (xs : List Text) (x : Text) → IsDistinct xs → has_flag xs x ≡ false → IsDistinct (xs ++ x ∷ [])
IsDistinct-snoc [] x d n = (has_flag-nil x, tt)
IsDistinct-snoc (y ∷ xs) x d n = (
  ground (
    arith,
    d.0,
    has_flag-append xs (x ∷ []) y,
    has_flag-cons x [] y,
    has_flag-nil y,
    has_flag-cons y xs x,
    eq_ignore_ascii_case_comm x y,
  ),
  IsDistinct-snoc xs x d.1 (ground (arith, has_flag-cons y xs x)),
)

push_new-IsDistinct : (flags out : List Text) → IsDistinct out → IsDistinct (push_new out flags)
unfolding push_new
push_new-IsDistinct [] out d = d
push_new-IsDistinct (x ∷ flags) out d = elim (Bool-cases (has_flag out x)) [
  | inl old ↦ rw old (push_new-IsDistinct flags out d)
  | inr new ↦ rw new (push_new-IsDistinct flags (out ++ x ∷ []) (IsDistinct-snoc out x d new))
]

remove-IsDistinct :
    (requested current : List Text)
    → IsDistinct current
    → IsDistinct (retain (not_asked requested) current)
remove-IsDistinct requested [] d = tt
remove-IsDistinct requested (x ∷ current) d = elim (Bool-cases (not_asked requested x)) [
  | inl kept ↦ rw kept (
    ground (arith, d.0, has_flag-remove requested current x),
    remove-IsDistinct requested current d.1,
  )
  | inr dropped ↦ rw dropped (remove-IsDistinct requested current d.1)
]

-- If no two flags of the message are equal up to case, none are after a STORE in any mode, however
-- often the request repeats a flag.
pub apply_store_flags-IsDistinct :
    (current : List Text) (mode : StoreMode) (requested : List Text)
    → IsDistinct current
    → IsDistinct (apply_store_flags current mode requested)
unfolding apply_store_flags
apply_store_flags-IsDistinct current replace requested d = push_new-IsDistinct requested [] tt
apply_store_flags-IsDistinct current add requested d = push_new-IsDistinct requested current d
apply_store_flags-IsDistinct current remove requested d = remove-IsDistinct requested current d
