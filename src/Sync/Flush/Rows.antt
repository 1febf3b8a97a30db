-- ===== src/Sync/Flush/Rows.antt =====
-- The rows of `pending_mutations` that a flush works on.
use imapped_lightmode.Base.{
  ℕ, ◌≡◌, refl, ◌∙◌, Bool, true, not, Option, none, List, [], ◌∷◌, map, if◌then◌else◌, any, retain,
  All, ok, arith, Bool-cases, inl, inr,
}
use imapped_lightmode.Base.Int.{ℤ, eqb_ℤ, eqb_ℤ_iff}
use imapped_lightmode.Domain.{MutationStatus, in_flight, succeeded}
use imapped_lightmode.Domain.Records.{PendingMutation}
use imapped_lightmode.Db.{Db}
use imapped_lightmode.Db.Mutations.{
  is_open, is_time, is_due, set_status, row_or_error, update_pending_mutation,
}

abbrev pub with_id : ℤ → PendingMutation → Bool
with_id id m = eqb_ℤ m.id id

abbrev pub set_rows :
    ℤ → MutationStatus → ℕ → Option ℕ → List PendingMutation → List PendingMutation
set_rows id status attempts next =
    map (λ m. if with_id id m then set_status status attempts next m else m)

-- Rows are there under the same ids after a change.
any-set_rows :
    (other id : ℤ) (status : MutationStatus) (attempts : ℕ) (next : Option ℕ)
    (ms : List PendingMutation)
    → any (with_id other) (set_rows id status attempts next ms) ≡ any (with_id other) ms
any-set_rows other id status attempts next [] = refl
any-set_rows other id status attempts next (m ∷ ms) =
    ground (arith, any-set_rows other id status attempts next ms)

-- An update finds its row.
pub record IsUpdated (id : ℤ) (status : MutationStatus) (attempts : ℕ) (next : Option ℕ) (db : Db)
    : Type 0 where
  pub row : PendingMutation
  pub result :
      update_pending_mutation id status attempts next db
      ≡ ok (row, record db { mutations = set_rows id status attempts next db.mutations })
  pub same_id : row.id ≡ id
  pub same_attempts : row.attempts ≡ attempts

first_row :
    (id : ℤ) (ms : List PendingMutation)
    → any (with_id id) ms ≡ true
    → (row : PendingMutation) × (rows : List PendingMutation) × (retain (with_id id) ms
        ≡ row ∷ rows)
      × (with_id id row ≡ true)
first_row id [] h = ground arith
first_row id (m ∷ ms) h = elim (Bool-cases (with_id id m)) [
  | inl t ↦ (m, retain (with_id id) ms, rw t refl, t)
  | inr f ↦
      let later = first_row id ms (ground (arith, h, f)) in
      (later.0, later.1, rw f later.2, later.3)
]

pub update-IsUpdated :
    (id : ℤ) (status : MutationStatus) (attempts : ℕ) (next : Option ℕ) (db : Db)
    → any (with_id id) db.mutations ≡ true
    → IsUpdated id status attempts next db
unfolding update_pending_mutation row_or_error
update-IsUpdated id status attempts next db h =
    let (row, rows, found, same) = first_row id db.mutations h in
    record {
      row = set_status status attempts next row;
      result = rw found refl;
      same_id = (eqb_ℤ_iff row.id id).0 same;
      same_attempts = refl;
    }

abbrev pub without_id : ℤ → List PendingMutation → List PendingMutation
without_id id = retain (λ m. not (with_id id m))

-- A change that has succeeded is not due any more, and the others are due as before.
pub due-succeeded :
    (account_id id : ℤ) (now first second : ℕ) (ms : List PendingMutation)
    → retain
        (is_due account_id now)
        (set_rows id succeeded second none (set_rows id in_flight first none ms))
      ≡ without_id id (retain (is_due account_id now) ms)
unfolding is_due is_open is_time
due-succeeded account_id id now first second [] = refl
due-succeeded account_id id now first second (m ∷ ms) =
    ground (arith, due-succeeded account_id id now first second ms)

unfoldable pub drop_ids : List PendingMutation → List PendingMutation → List PendingMutation
drop_ids [] rows = rows
drop_ids (p ∷ ps) rows = drop_ids ps (without_id p.id rows)

abbrev pub AllNamed : List PendingMutation → List PendingMutation → Type 0
AllNamed ps = All (λ r. any (λ p. with_id p.id r) ps ≡ true)

AllNamed-next :
    (p : PendingMutation) (ps rows : List PendingMutation)
    → AllNamed (p ∷ ps) rows
    → AllNamed ps (without_id p.id rows)
AllNamed-next p ps [] h = tt
AllNamed-next p ps (r ∷ rows) h = elim (Bool-cases (with_id p.id r)) [
  | inl t ↦ rw t (AllNamed-next p ps rows h.1)
  | inr f ↦ rw f ((ground (arith, h.0, f)), AllNamed-next p ps rows h.1)
]

pub drop_ids-all : (ps rows : List PendingMutation) → AllNamed ps rows → drop_ids ps rows ≡ []
unfolding drop_ids
drop_ids-all [] [] h = refl
drop_ids-all [] (r ∷ rows) h = ground (arith, h.0)
drop_ids-all (p ∷ ps) rows h = drop_ids-all ps (without_id p.id rows) (AllNamed-next p ps rows h)

AllNamed-more :
    (p : PendingMutation) (ps rows : List PendingMutation)
    → AllNamed ps rows
    → AllNamed (p ∷ ps) rows
AllNamed-more p ps [] h = tt
AllNamed-more p ps (r ∷ rows) h = (ground (arith, h.0), AllNamed-more p ps rows h.1)

eqb_ℤ_self : (n : ℤ) → eqb_ℤ n n ≡ true
eqb_ℤ_self n = ground arith

pub AllNamed-self : (rows : List PendingMutation) → AllNamed rows rows
AllNamed-self [] = tt
AllNamed-self (r ∷ rows) =
    (ground (arith, eqb_ℤ_self r.id), AllNamed-more r rows rows (AllNamed-self rows))

-- The rows that are chosen are rows of the table.
abbrev pub AllThere : List PendingMutation → List PendingMutation → Type 0
AllThere ms = All (λ p. any (with_id p.id) ms ≡ true)

AllThere-more :
    (m : PendingMutation) (ms ps : List PendingMutation) → AllThere ms ps → AllThere (m ∷ ms) ps
AllThere-more m ms [] h = tt
AllThere-more m ms (p ∷ ps) h = (ground (arith, h.0), AllThere-more m ms ps h.1)

pub retain-AllThere :
    (test : PendingMutation → Bool) (ms : List PendingMutation) → AllThere ms (retain test ms)
retain-AllThere test [] = tt
retain-AllThere test (m ∷ ms) =
    let rest = AllThere-more m ms (retain test ms) (retain-AllThere test ms) in
    elim (Bool-cases (test m)) [
      | inl t ↦ rw t ((ground (arith, eqb_ℤ_self m.id)), rest)
      | inr f ↦ rw f rest
    ]

pub AllThere-set_rows :
    (id : ℤ) (status : MutationStatus) (attempts : ℕ) (next : Option ℕ)
    (ms ps : List PendingMutation)
    → AllThere ms ps
    → AllThere (set_rows id status attempts next ms) ps
AllThere-set_rows id status attempts next ms [] h = tt
AllThere-set_rows id status attempts next ms (p ∷ ps) h = (
  any-set_rows p.id id status attempts next ms ∙ h.0,
  AllThere-set_rows id status attempts next ms ps h.1,
)
