-- ===== src/Cache/Local.antt =====
-- Actions that read and write no row of the table but the one under their own key.
use image_descriptor.Prelude.{
  ℕ, ◌≡◌, refl, ◌∙◌, String, Bool, true, false, Option, none, some, arith, if◌then◌else◌,
}
use image_descriptor.Prelude.Text.{str_eq}
use image_descriptor.Errors.{Error}
use image_descriptor.Cache.Rows.{Row, Table, select}
use image_descriptor.Cache.Rows.Lookup.{select-delete, select-replace}
use image_descriptor.Cache.{Cache, Fault, found, get, set, write, expiry}

-- An action on states that hold a table: what it gives depends on the row of its key alone, what it
-- leaves under its key too, and it leaves the other rows as they are.
pub record IsLocal {S A : Type 0} (rows : S → Table) (key : String) (f : S → A × S) : Type 0 where
  pub answer : (s t : S) → select key (rows s) ≡ select key (rows t) → (f s).0 ≡ (f t).0
  pub row :
      (s t : S)
      → select key (rows s) ≡ select key (rows t)
      → select key (rows (f s).1) ≡ select key (rows (f t).1)
  pub others :
      (k : String) (s : S) → str_eq key k ≡ false → select k (rows (f s).1) ≡ select k (rows s)

abbrev pub table_of : Cache → Table
table_of c = c.table

pub pure-IsLocal :
    {S A : Type 0} (rows : S → Table) (key : String) (a : A) → IsLocal rows key (λ (s : S). (a, s))
pure-IsLocal rows key a = record {
  answer = λ s t h. refl;
  row = λ s t h. h;
  others = λ k s h. refl;
}

-- one action after another
pub then-IsLocal :
    {S A B : Type 0} (rows : S → Table) (key : String) (f : S → A × S) (g : A → S → B × S)
    → IsLocal rows key f
    → ((a : A) → IsLocal rows key (g a))
    → IsLocal rows key (λ s. g (f s).0 (f s).1)
then-IsLocal rows key f g p q = record {
  answer = λ s t h. rw (p.answer s t h) ((q (f t).0).answer (f s).1 (f t).1 (p.row s t h));
  row = λ s t h. rw (p.answer s t h) ((q (f t).0).row (f s).1 (f t).1 (p.row s t h));
  others = λ k s h. (q (f s).0).others k (f s).1 h ∙ p.others k s h;
}

pub if-IsLocal :
    {S A : Type 0} (rows : S → Table) (key : String) (b : Bool) (f g : S → A × S)
    → IsLocal rows key f
    → IsLocal rows key g
    → IsLocal rows key (λ s. if b then f s else g s)
if-IsLocal rows key true f g p q = p
if-IsLocal rows key false f g p q = q

-- an action that is given in another way
pub alike-IsLocal :
    {S A : Type 0} (rows : S → Table) (key : String) (f g : S → A × S)
    → ((s : S) → g s ≡ f s)
    → IsLocal rows key f
    → IsLocal rows key g
alike-IsLocal rows key f g same p = record {
  answer = λ s t h. rw (same s, same t) (p.answer s t h);
  row = λ s t h. rw (same s, same t) (p.row s t h);
  others = λ k s h. rw (same s) (p.others k s h);
}

-- a change of what is not in the table
pub keep-IsLocal :
    {S A : Type 0} (rows : S → Table) (key : String) (a : A) (g : S → S)
    → ((s : S) → rows (g s) ≡ rows s)
    → IsLocal rows key (λ s. (a, g s))
keep-IsLocal rows key a g same = record {
  answer = λ s t h. refl;
  row = λ s t h. rw (same s, same t) h;
  others = λ k s h. rw (same s) refl;
}

-- an action on a part of the state
pub part-IsLocal :
    {S T A : Type 0} (rows : T → Table) (part : S → T) (put : T → S → S) (key : String)
    (f : T → A × T)
    → ((t : T) (s : S) → part (put t s) ≡ t)
    → IsLocal rows key f
    → IsLocal (λ s. rows (part s)) key (λ s. ((f (part s)).0, put (f (part s)).1 s))
part-IsLocal rows part put key f law p = record {
  answer = λ s t h. p.answer (part s) (part t) h;
  row = λ s t h. rw (law (f (part s)).1 s, law (f (part t)).1 t) (p.row (part s) (part t) h);
  others = λ k s h. rw (law (f (part s)).1 s) (p.others k (part s) h);
}

module _ {V : Type 0} (key : String) (loads : String → Option V) (f : Fault) (now : ℕ) where
  found_answer :
      (o : Option Row) (s t : Cache) → (found loads f now key o s).0 ≡ (found loads f now key o t).0
  unfolding found write
  found_answer none s t = refl
  found_answer (some row) s t = ground arith

  found_row :
      (o : Option Row) (s t : Cache)
      → select key s.table ≡ select key t.table
      → select key (found loads f now key o s).1.table
        ≡ select key (found loads f now key o t).1.table
  unfolding found write
  found_row none s t h = h
  found_row (some row) s t h =
      ground (arith, h, select-delete key key s.table, select-delete key key t.table)

  found_others :
      (o : Option Row) (k : String) (s : Cache)
      → str_eq key k ≡ false
      → select k (found loads f now key o s).1.table ≡ select k s.table
  unfolding found write
  found_others none k s h = refl
  found_others (some row) k s h = ground (arith, h, select-delete key k s.table)

  pub get-IsLocal : (e : Option Error) → IsLocal table_of key (get loads e f now key)
  unfolding get
  get-IsLocal (some e) = record {
    answer = λ s t h. ground arith;
    row = λ s t h. ground (arith, h);
    others = λ k s h. ground arith;
  }
  get-IsLocal none = record {
    answer = λ s t h. rw h (found_answer (select key t.table) s t);
    row = λ s t h. rw h (found_row (select key t.table) s t h);
    others = λ k s h. found_others (select key s.table) k s h;
  }

module _ {V : Type 0} (key : String) (dumps : V → String) (f : Fault) (now : ℕ) (v : V)
    (days seconds : Option ℕ) where
  written : Row
  written = record { key = key; value = dumps v; expires_at = expiry now days seconds }

  pub set-IsLocal : IsLocal table_of key (set dumps f now key v days seconds)
  unfolding set write written
  set-IsLocal = record {
    answer = λ s t h. ground arith;
    row = λ s t h.
        ground (arith, h, select-replace written key s.table, select-replace written key t.table);
    others = λ k s h. ground (arith, h, select-replace written k s.table);
  }
