-- ===== src/UrlParser/Inside/Fields.antt =====
-- What the operations on a field do to the others.
use network_c_http.Base.{
  ℕ, ◌+◌, ◌*◌, ◌-◌, ◌%◌, ◌≤◌, ◌<◌, ◌≡◌, ◌≢◌, refl, ◌∙◌, true, List, [], ◌∷◌, arith, All,
}
use network_c_http.Base.Cells.{Block, update_self, update_ne, segment}
use network_c_http.UrlParser.Chars.{is_num}
use network_c_http.UrlParser.Url.{Url, grow, begin, set_off, set_len, u16}

-- The field, if it is set, is not empty and ends by index `limit`.
pub record Within (u : Url) (k limit : ℕ) : Type 0 where
  pub nonempty : u.field_set k ≡ true → 0 < (u.field_data k).len
  pub bounded : u.field_set k ≡ true → (u.field_data k).off + (u.field_data k).len ≤ limit

-- The bytes of the field.
abbrev pub bytes : Block ℕ → Url → ℕ → List ℕ
bytes buf u k = segment buf.cell (u.field_data k).off (u.field_data k).len

abbrev pub Digits : List ℕ → Type 0
Digits = All (λ c. is_num c ≡ true)

-- The value of decimal digits behind the value `v`.
unfoldable pub decimal : ℕ → List ℕ → ℕ
decimal v [] = v
decimal v (c ∷ cs) = decimal (v * 10 + (c - b'0')) cs

pub Within-mono : (u : Url) (k m n : ℕ) → m ≤ n → Within u k m → Within u k n
Within-mono u k m n h w = record {
  nonempty = w.nonempty;
  bounded = λ e. omega (arith, w.bounded e);
}

-- Field `j` of the two is the same.
pub record Same (u u' : Url) (j : ℕ) : Type 0 where
  pub field : u'.field_data j ≡ u.field_data j
  pub bit : u'.field_set j ≡ u.field_set j

pub Same-trans : (u v w : Url) (j : ℕ) → Same u v j → Same v w j → Same u w j
Same-trans u v w j a b = record { field = b.field ∙ a.field; bit = b.bit ∙ a.bit }

pub Within-Same : (u u' : Url) (j limit : ℕ) → Same u u' j → Within u j limit → Within u' j limit
Within-Same u u' j limit s w = record {
  nonempty = λ e. rw s.field (w.nonempty (rw s.bit at e));
  bounded = λ e. rw s.field (w.bounded (rw s.bit at e));
}

pub grow-Same : (u : Url) (j k : ℕ) → j ≢ k → Same u (grow k u) j
unfolding grow
grow-Same u j k h = record { field = update_ne u.field_data k j _ h; bit = refl }

pub set_off-Same : (u : Url) (j k p : ℕ) → j ≢ k → Same u (set_off k p u) j
unfolding set_off
set_off-Same u j k p h = record { field = update_ne u.field_data k j _ h; bit = refl }

pub set_len-Same : (u : Url) (j k n : ℕ) → j ≢ k → Same u (set_len k n u) j
unfolding set_len
set_len-Same u j k n h = record { field = update_ne u.field_data k j _ h; bit = refl }

pub begin-Same : (u : Url) (j k p n : ℕ) → j ≢ k → Same u (begin k p n u) j
unfolding begin
begin-Same u j k p n h = record {
  field = update_ne u.field_data k j _ h;
  bit = update_ne u.field_set k j true h;
}

-- What an operation makes of its own field.
pub grow_lem :
    (u : Url) (k : ℕ)
    → ((grow k u).field_data k
        ≡ record { off = (u.field_data k).off; len = ((u.field_data k).len + 1) % u16 })
      × ((grow k u).field_set k ≡ u.field_set k)
unfolding grow
grow_lem u k = (update_self u.field_data k _, refl)

pub set_off_lem :
    (u : Url) (k p : ℕ)
    → ((set_off k p u).field_data k ≡ record { off = p % u16; len = (u.field_data k).len })
      × ((set_off k p u).field_set k ≡ u.field_set k)
unfolding set_off
set_off_lem u k p = (update_self u.field_data k _, refl)

pub set_len_lem :
    (u : Url) (k n : ℕ)
    → ((set_len k n u).field_data k ≡ record { off = (u.field_data k).off; len = n })
      × ((set_len k n u).field_set k ≡ u.field_set k)
unfolding set_len
set_len_lem u k n = (update_self u.field_data k _, refl)

pub begin_lem :
    (u : Url) (k p n : ℕ)
    → ((begin k p n u).field_data k ≡ record { off = p % u16; len = n })
      × ((begin k p n u).field_set k ≡ true)
unfolding begin
begin_lem u k p n = (update_self u.field_data k _, update_self u.field_set k true)

pub Within-grow : (u : Url) (k p : ℕ) → p + 1 < u16 → Within u k p → Within (grow k u) k (p + 1)
Within-grow u k p h w =
    let (d, b) = grow_lem u k in
    record {
      nonempty = λ e. rw d (omega (arith, w.bounded (rw b at e)));
      bounded = λ e. rw d (omega (arith, w.bounded (rw b at e)));
    }

pub Within-begin : (u : Url) (k p : ℕ) → p + 1 < u16 → Within (begin k p 1 u) k (p + 1)
Within-begin u k p h =
    let (d, b) = begin_lem u k p 1 in
    record { nonempty = λ e. rw d (omega arith); bounded = λ e. rw d (omega arith) }
