-- ===== src/Db/Ids.antt =====
-- The ids of rows: what calls bind to `:id`, in their order, and databases that grow by such calls.
pub mod Puts
pub mod Bootstrap
use nanocap.Prelude.{
  is_name, ℕ, suc, ◌+◌, ◌≤◌, ◌≡◌, refl, sym, ◌∙◌, ap, arith, Bool, true, false, List, [], ◌∷◌, ◌++◌,
  String, append-nil, append_assoc, if◌then◌else◌,
}
use nanocap.Db.{
  Db, Value, SqlCall, bind, exec, reset_statement, clear_bindings, commit, begin_transaction,
  integer, null, negative, text, call,
}

abbrev pub is_id : String → Bool
is_id name = is_name name ":id"

abbrev pub number_in : Value → List ℕ
number_in (integer n) = n ∷ []
number_in null = []
number_in (negative n) = []
number_in (text t) = []

abbrev pub id_of : String → Value → List ℕ
id_of name v = if is_id name then number_in v else []

abbrev pub ids : List SqlCall → List ℕ
ids [] = []
ids (bind s name v ∷ cs) = id_of name v ++ ids cs
ids (exec s ∷ cs) = ids cs
ids (reset_statement s ∷ cs) = ids cs
ids (clear_bindings s ∷ cs) = ids cs
ids (commit ∷ cs) = ids cs
ids (begin_transaction ∷ cs) = ids cs

-- Numbers that ascend strictly, from a bound that is not above them to one that is.
abbrev pub Ascends : ℕ → List ℕ → ℕ → Type 0
Ascends lo [] hi = lo ≤ hi
Ascends lo (x ∷ xs) hi = (lo ≤ x) × Ascends (suc x) xs hi

pub Ascends-append :
    (lo mid hi : ℕ) (xs ys : List ℕ)
    → Ascends lo xs mid
    → Ascends mid ys hi
    → Ascends lo (xs ++ ys) hi
Ascends-append lo mid hi [] [] a b = omega arith
Ascends-append lo mid hi [] (y ∷ ys) a (b, bs) = (omega arith, bs)
Ascends-append lo mid hi (x ∷ xs) ys (a, as') b = (a, Ascends-append (suc x) mid hi xs ys as' b)

pub ids-append : (cs ds : List SqlCall) → ids (cs ++ ds) ≡ ids cs ++ ids ds
ids-append [] ds = refl
ids-append (bind s name v ∷ cs) ds =
    ap (λ xs. id_of name v ++ xs) (ids-append cs ds)
    ∙ sym (append_assoc (id_of name v) (ids cs) (ids ds))
ids-append (exec s ∷ cs) ds = ids-append cs ds
ids-append (reset_statement s ∷ cs) ds = ids-append cs ds
ids-append (clear_bindings s ∷ cs) ds = ids-append cs ds
ids-append (commit ∷ cs) ds = ids-append cs ds
ids-append (begin_transaction ∷ cs) ds = ids-append cs ds

-- Calls were appended whose ids ascend between two bounds.
pub record Calls (lo : ℕ) (before after : List SqlCall) (hi : ℕ) : Type 0 where
  pub new : List SqlCall
  pub grown : after ≡ before ++ new
  pub ascending : Ascends lo (ids new) hi

pub Calls-trans :
    {lo mid hi : ℕ} {a b c : List SqlCall} → Calls lo a b mid → Calls mid b c hi → Calls lo a c hi
Calls-trans {lo} {mid} {hi} {a} p q = record {
  new = p.new ++ q.new;
  grown = q.grown ∙ ap (λ cs. cs ++ q.new) p.grown ∙ append_assoc a p.new q.new;
  ascending =
      rw (ids-append p.new q.new)
        (Ascends-append lo mid hi (ids p.new) (ids q.new) p.ascending q.ascending);
}

pub Calls-none : (lo : ℕ) (a : List SqlCall) (hi : ℕ) → lo ≤ hi → Calls lo a a hi
Calls-none lo a hi le = record { new = []; grown = sym (append-nil a); ascending = le }

pub Calls-append :
    (lo : ℕ) (a cs : List SqlCall) (hi : ℕ) → Ascends lo (ids cs) hi → Calls lo a (a ++ cs) hi
Calls-append lo a cs hi h = record { new = cs; grown = refl; ascending = h }

-- A database grows by calls that bind only ids that it hands out, each in its turn and once.
abbrev pub Grows : Db → Db → Type 0
Grows db db' = Calls db.next_id db.calls db'.calls db'.next_id

pub Grows-refl : (db : Db) → Grows db db
Grows-refl db = Calls-none db.next_id db.calls db.next_id (omega arith)

-- Calls with ids from a bound, or below it, and the count of ids as it was.
pub record Binds (lo : ℕ) (db db' : Db) (hi : ℕ) : Type 0 where
  pub made : Calls lo db.calls db'.calls hi
  pub kept : db'.next_id ≡ db.next_id

pub Binds-trans :
    {lo mid hi : ℕ} {a b c : Db} → Binds lo a b mid → Binds mid b c hi → Binds lo a c hi
Binds-trans p q = record { made = Calls-trans p.made q.made; kept = q.kept ∙ p.kept }

pub Binds-none : (lo : ℕ) (db : Db) (hi : ℕ) → lo ≤ hi → Binds lo db db hi
Binds-none lo db hi le = record { made = Calls-none lo db.calls hi le; kept = refl }

pub call-Binds :
    (lo : ℕ) (cs : List SqlCall) (db : Db) (hi : ℕ)
    → Ascends lo (ids cs) hi
    → Binds lo db (call cs db) hi
unfolding call
call-Binds lo cs db hi h = record { made = Calls-append lo db.calls cs hi h; kept = refl }
