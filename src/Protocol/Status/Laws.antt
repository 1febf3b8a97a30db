-- ===== src/Protocol/Status/Laws.antt =====
-- STATUS items: what `parse_status_items` of crates/protocol/src/lib.rs accepts, and that
-- `format_status_response` answers it.
use imapped_lightmode.Base.{
  ◌≡◌, refl, subst, ◌∙◌, Bool, true, false, ◌||◌, some, List, [], ◌∷◌, ◌++◌, arith, if◌then◌else◌,
  map, any-append, length, All, All-append, Bool-cases, Option-cases, inl, inr, Result, ok, err,
}
use imapped_lightmode.Base.Int.{ℤ}
use imapped_lightmode.Text.{Text, eq, eq→≡}
use imapped_lightmode.Text.Case.{to_ascii_uppercase}
use imapped_lightmode.Text.Trim.{trim}
use imapped_lightmode.Text.Split.{split_whitespace}
use imapped_lightmode.Protocol.Store.{strip_parens}
use imapped_lightmode.Domain.Records.{Mailbox}
use imapped_lightmode.Protocol.Status.{
  is_status_item, has_item, gather_items, nonempty_items, parse_status_items, status_value,
  status_items,
}

-- A word of the request as the items spell it.
abbrev pub item_of : Text → Text
item_of word = to_ascii_uppercase (trim word)

gather_items_step :
    (word : Text) (words items out : List Text)
    → gather_items items (word ∷ words) ≡ ok out
    → (is_status_item (item_of word) ≡ true)
      × (gather_items
            (if has_item items (item_of word) then items else items ++ item_of word ∷ [])
            words
          ≡ ok out)
unfolding gather_items
gather_items_step word words items out h = elim (Bool-cases (is_status_item (item_of word))) [
  | inl e ↦ (e, ground (arith, h, e))
  | inr e ↦ ground (arith, h, e)
]

has_item-if :
    (items : List Text) (i t : Text)
    → has_item (if has_item items i then items else items ++ i ∷ []) t
      ≡ (has_item items t || eq i t)
has_item-if items i t = elim (Bool-cases (has_item items i)) [
  | inl e ↦ rw e (ground (arith, e, eq→≡ i t))
  | inr e ↦ rw e (ground (arith, any-append (λ (x : Text). eq x t) items (i ∷ [])))
]

gather_items-has_item :
    (words items out : List Text) (t : Text)
    → gather_items items words ≡ ok out
    → has_item out t ≡ (has_item items t || has_item (map item_of words) t)
unfolding gather_items
gather_items-has_item [] items out t h = ground arith
gather_items-has_item (word ∷ words) items out t h =
    let step = gather_items_step word words items out h in
    gather_items-has_item words
      (if has_item items (item_of word) then items else items ++ item_of word ∷ []) out t step.1
    ∙ ground (arith, has_item-if items (item_of word) t)

All-if :
    (items : List Text) (i : Text) (b : Bool)
    → All (λ i. is_status_item i ≡ true) items
    → is_status_item i ≡ true
    → All (λ i. is_status_item i ≡ true) (if b then items else items ++ i ∷ [])
All-if items i true s h = s
All-if items i false s h = All-append (λ i. is_status_item i ≡ true) items (i ∷ []) s (h, tt)

gather_items-supported :
    (words items out : List Text)
    → All (λ i. is_status_item i ≡ true) items
    → gather_items items words ≡ ok out
    → All (λ i. is_status_item i ≡ true) out
unfolding gather_items
gather_items-supported [] items out s h =
    let same : items ≡ out = cc in subst (All (λ i. is_status_item i ≡ true)) same s
gather_items-supported (word ∷ words) items out s h =
    let step = gather_items_step word words items out h in
    gather_items-supported words
      (if has_item items (item_of word) then items else items ++ item_of word ∷ []) out
      (All-if items (item_of word) (has_item items (item_of word)) s step.0) step.1

nonempty_items-ok :
    (r : Result (List Text)) (out : List Text) → nonempty_items r ≡ ok out → r ≡ ok out
unfolding nonempty_items
nonempty_items-ok (err e) out h = h
nonempty_items-ok (ok []) out h = cc
nonempty_items-ok (ok (i ∷ is)) out h = h

-- The items that a STATUS request is parsed to are its words, in upper case: those and no others.
pub parse_status_items-has_item :
    (value : Text) (args items : List Text) (t : Text)
    → parse_status_items (value ∷ args) ≡ ok items
    → has_item items t ≡ has_item (map item_of (split_whitespace (strip_parens value))) t
unfolding parse_status_items
parse_status_items-has_item value args items t h =
    gather_items-has_item (split_whitespace (strip_parens value)) [] items t
      (nonempty_items-ok (gather_items [] (split_whitespace (strip_parens value))) items h)

supported-answered :
    (mailbox : Mailbox) (item : Text)
    → is_status_item item ≡ true
    → (n : ℤ) × (status_value mailbox item ≡ some n)
unfolding status_value is_status_item
supported-answered mailbox item h = elim (Option-cases (status_value mailbox item)) [
  | inl e ↦ ground (arith, e, h)
  | inr v ↦ v
]

status_items-length :
    (mailbox : Mailbox) (items : List Text)
    → All (λ i. is_status_item i ≡ true) items
    → length (status_items mailbox items) ≡ length items
unfolding status_items
status_items-length mailbox [] h = refl
status_items-length mailbox (item ∷ items) h =
    let value = supported-answered mailbox item h.0 in
    rw (value.1, status_items, length) (omega (arith, status_items-length mailbox items h.1))

-- Every item of an accepted STATUS request is answered: the response has one entry for each.
pub status_items-parse_status_items :
    (mailbox : Mailbox) (args items : List Text)
    → parse_status_items args ≡ ok items
    → length (status_items mailbox items) ≡ length items
unfolding parse_status_items
status_items-parse_status_items mailbox [] items h = cc
status_items-parse_status_items mailbox (value ∷ args) items h = status_items-length mailbox items (
    gather_items-supported (split_whitespace (strip_parens value)) [] items tt
      (nonempty_items-ok (gather_items [] (split_whitespace (strip_parens value))) items h))
