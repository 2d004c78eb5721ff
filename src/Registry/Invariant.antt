-- ===== src/Registry/Invariant.antt =====
-- What holds of the registry between two calls (internal/registry/memory.go), and that looking a cell
-- up by its id is the map's own lookup then.
use mmo.Prelude.{
  ◌≡◌, refl, sym, ap, ◌∙◌, false, Option, none, some, List, [], ◌∷◌, map, arith, All, text-Eq,
  eq_iff, ◌==◌, if◌then◌else◌, Bool-cases, inl, inr,
}
use mmo.Prelude.Text.{Text, is_empty}
use mmo.Prelude.Dict.{Dict, get, put, remove, values, get-put, get-remove}
use mmo.Prelude.Float.{Float}
use mmo.Cell.{Bounds, CellSpec}
use mmo.Registry.{Memory, list, register, deregister, degenerate, find_cell_by_id}

-- The calls that change the registry.
pub data Call (F : Type 0) : Type 0 where
  register_call : Option (CellSpec F) → Call F
  deregister_call : Text → Call F

module _ {F : Type 0} ⦃fl : Float F⦄ where
  abbrev HasValidBounds : Option (Bounds F) → Type 0
  HasValidBounds none = ⊥
  HasValidBounds (some b) = degenerate b ≡ false

  abbrev IsEntry : Text × CellSpec F → Type 0
  IsEntry (k, spec) = (k ≡ spec.id) × (is_empty k ≡ false) × HasValidBounds spec.bounds

  -- Each cell stands under its own id, which is not empty, and its bounds are a proper rectangle.
  abbrev pub IsValid : Memory F → Type 0
  IsValid m = All IsEntry m.cells

  All-remove :
      (cells : Dict Text (CellSpec F)) (k : Text) → All IsEntry cells → All IsEntry (remove cells k)
  unfolding remove
  All-remove [] k h = tt
  All-remove ((j, c) ∷ cells) k h = elim (Bool-cases (j == k)) [
    | inl e ↦ rw e (All-remove cells k h.1)
    | inr e ↦ rw e (h.0, All-remove cells k h.1)
  ]

  -- A registration keeps the registry valid, whether it is taken or refused.
  pub register-IsValid :
      (m : Memory F) (spec : Option (CellSpec F)) → IsValid m → IsValid (register m spec).0
  unfolding register put
  register-IsValid m none v = v
  register-IsValid m (some spec) v = go spec.bounds refl
    where
      go : (b : Option (Bounds F)) → spec.bounds ≡ b → IsValid (register m (some spec)).0
      go none e = rw e v
      go (some b) e = elim (Bool-cases (is_empty spec.id)) [
        | inl x ↦ rw (e, x) v
        | inr x ↦ elim (Bool-cases (degenerate b)) [
          | inl y ↦ rw (e, x, y) v
          | inr y ↦ rw (e, x, y) ((refl, x, y), All-remove m.cells spec.id v)
        ]
      ]

  pub deregister-IsValid : (m : Memory F) (id : Text) → IsValid m → IsValid (deregister m id).0
  unfolding deregister
  deregister-IsValid m id v = elim (Bool-cases (is_empty id)) [
    | inl e ↦ rw e v
    | inr e ↦ rw e (All-remove m.cells id v)
  ]

  run_call : Memory F → Call F → Memory F
  run_call m (register_call spec) = (register m spec).0
  run_call m (deregister_call id) = (deregister m id).0

  pub run_calls : Memory F → List (Call F) → Memory F
  unfolding run_call
  run_calls m [] = m
  run_calls m (c ∷ cs) = run_calls (run_call m c) cs

  -- A registry that starts valid stays valid under any registrations and deregistrations.
  pub run_calls-IsValid : (m : Memory F) (cs : List (Call F)) → IsValid m → IsValid (run_calls m cs)
  unfolding run_calls
  run_calls-IsValid m [] v = v
  run_calls-IsValid m (register_call spec ∷ cs) v =
      run_calls-IsValid (register m spec).0 cs (register-IsValid m spec v)
  run_calls-IsValid m (deregister_call id ∷ cs) v =
      run_calls-IsValid (deregister m id).0 cs (deregister-IsValid m id v)

  -- The cells as a catalog lists them.
  abbrev pub listed : Memory F → List (Option (CellSpec F))
  listed m = map some (list m)

  find-listed :
      (cells : Dict Text (CellSpec F)) (id : Text)
      → All IsEntry cells
      → is_empty id ≡ false
      → find_cell_by_id (map some (values cells)) id ≡ get cells id
  unfolding find_cell_by_id get values
  find-listed [] id v n = refl
  find-listed ((k, c) ∷ cells) id v n =
      ground (arith, find-listed cells id v.1 n, eq_iff k id, eq_iff c.id id)

  register_inv :
      (m : Memory F) (spec : CellSpec F)
      → (register m (some spec)).1 ≡ none
      → (is_empty spec.id ≡ false) × ((register m (some spec)).0.cells ≡ put m.cells spec.id spec)
  unfolding register
  register_inv m spec h = ground arith

  -- In a valid registry, a registration that is taken is found under its id, and every other id that is
  -- not empty finds what it found before.
  pub find-register :
      (m : Memory F) (spec : CellSpec F) (id : Text)
      → IsValid m
      → (register m (some spec)).1 ≡ none
      → is_empty id ≡ false
      → find_cell_by_id (listed (register m (some spec)).0) id
        ≡ (if spec.id == id then some spec else find_cell_by_id (listed m) id)
  unfolding list
  find-register m spec id v h n =
      let (_, stored) = register_inv m spec h in
      find-listed (register m (some spec)).0.cells id (register-IsValid m (some spec) v) n
      ∙ ap (λ (d : Dict Text (CellSpec F)). get d id) stored
      ∙ get-put m.cells spec.id spec id
      ∙ ap (λ (o : Option (CellSpec F)). if spec.id == id then some spec else o)
          (sym (find-listed m.cells id v n))

  -- In a valid registry, after the deregistration of an id that is not empty the id is gone, and every
  -- other id that is not empty finds what it found before.
  pub find-deregister :
      (m : Memory F) (gone id : Text)
      → IsValid m
      → is_empty gone ≡ false
      → is_empty id ≡ false
      → find_cell_by_id (listed (deregister m gone).0) id
        ≡ (if gone == id then none else find_cell_by_id (listed m) id)
  unfolding list deregister
  find-deregister m gone id v g n = rw g (
      find-listed (remove m.cells gone) id (All-remove m.cells gone v) n
      ∙ get-remove m.cells gone id
      ∙ ap (λ (o : Option (CellSpec F)). if gone == id then none else o)
          (sym (find-listed m.cells id v n)))
