-- ===== src/Store/Shared.antt =====
-- An address that one instance allocates in the shared registry, while other instances change the table
-- between its statements.
pub mod Agreed
pub mod Cached
pub mod Raced
pub mod Found
pub mod Allocated
use mathlib.Core.Path.{subst}
use mathlib.Core.Option.{some_inj}
use ts_domain_gateway.Common.{
  ℕ, ◌+◌, ◌<◌, ◌≤◌, ◌≡◌, ◌∙◌, ◌⊎◌, inl, inr, sym, ap, refl, Bool, true, false, ◌&&◌, ◌||◌, List, [],
  ◌∷◌, ◌++◌, Option, none, some, any, ltb, ◌==◌, nat_eq, list_eq, eq_iff, if◌then◌else◌, All, arith,
  Bool-cases, Option-cases,
}
use ts_domain_gateway.GoText.{Bytes}
use ts_domain_gateway.Net.{Addr, Prefix}
use ts_domain_gateway.Store.{
  Row, Registry, Exec, pure, fail, has_key, is_live, find_row, select_key, delete_expired,
  update_expiry, conflicts, insert_row, answer, try_address, try_addresses, take_row,
  find_or_insert, allocate_miss, go_on, all_hosts, statement, renew, unix_nano, order,
}
use ts_domain_gateway.Store.Constraints.{
  IsUnique, insert_row-IsUnique, delete_expired-IsUnique, update_expiry-IsUnique, update_expiry-All,
  delete_expired-All,
}
use ts_domain_gateway.Store.Gives.{
  Gives, IsStable, pure-Gives, fail-Gives, statement-Gives, lift-Gives, bind-Gives, choose-Gives,
  implies-Gives, remember_hit-Gives, mark_renewed-Gives, renew-Gives,
}
use ts_domain_gateway.Store.Leased.{find_row-All, row_of, select_key-row_of}
use ts_domain_gateway.Store.Others.{
  Lasts, Lasts-is_live, HeldAt, renewed-HeldAt, insert_row-All, Step, Steps, Steps-IsStable,
  Step-IsUnique, Step-All, Step-HeldAt,
}

-- The end of a lease, in the order of times.
abbrev pub until : ℕ → ℕ → ℕ
until now lease = order (unix_nano (now + lease))

module _ (to_text : Addr → Bytes) (parse_addr : Bytes → Option Addr) where
  -- The text is the one that its address is written as.
  abbrev pub IsText : Bytes → Type 0
  IsText text = (x : Addr) → parse_addr text ≡ some x → to_text x ≡ text

  -- Keys and addresses are unique, and the texts are as String writes them.
  abbrev pub IsSound : List Row → Type 0
  IsSound rows = IsUnique rows × All (λ row. IsText row.ip) rows

  -- The text of an address is read as no other address.
  abbrev pub ReadsBack : Type 0
  ReadsBack = (x y : Addr) → parse_addr (to_text x) ≡ some y → y ≡ x

  back-IsText : ReadsBack → (ip : Addr) → IsText (to_text ip)
  back-IsText back ip x e = ap to_text (back ip x e)

  pub Step-IsSound :
      (before until : ℕ) (rows rows' : List Row)
      → Step IsText before until rows rows'
      → IsSound rows
      → IsSound rows'
  Step-IsSound before until rows rows' s h = (
    Step-IsUnique IsText before until rows rows' s h.0,
    Step-All IsText before until (λ row. IsText row.ip) (λ new t l. t) (λ row e l h. h) rows rows' s
        h.1,
  )

  module _ (gateway domain : Bytes) where
    -- The table's row of the key has this address, and lasts.
    abbrev pub Leased : ℕ → Addr → List Row → Type 0
    Leased limit ip rows =
        IsSound rows
        × ((text : Bytes) × HeldAt gateway domain limit text rows
            × (parse_addr text ≡ some ip)
            × (to_text ip ≡ text))

    pub Step-Leased :
        (limit : ℕ) (ip : Addr) (rows rows' : List Row)
        → Step IsText limit limit rows rows'
        → Leased limit ip rows
        → Leased limit ip rows'
    Step-Leased limit ip rows rows' s (sound, (text, held, read, written)) = (
      Step-IsSound limit limit rows rows' s sound,
      (
        text,
        Step-HeldAt IsText gateway domain limit limit limit text (omega arith) (omega arith) rows
            rows' s held,
        read,
        written,
      ),
    )

  module _ (now lease during : ℕ) where
    abbrev pub R : List Row → List Row → Type 0
    R = Steps IsText during (until now lease)

    -- What is live at the start of the call lasts while it runs.
    abbrev pub IsCalm : List Row → Type 0
    IsCalm rows = IsSound rows × All (λ row. is_live now row ≡ true → Lasts during row) rows

    pub IsCalm-IsStable : during ≤ until now lease → IsStable R IsCalm
    IsCalm-IsStable short = Steps-IsStable IsText during (until now lease) IsCalm (λ rows rows' s h.
        (
          Step-IsSound during (until now lease) rows rows' s h.0,
          Step-All IsText during (until now lease)
              (λ row. is_live now row ≡ true → Lasts during row)
              (λ new t (e, set, long) _. (e, set, omega (arith, long, short)))
              (λ row e long _ _. (e, refl, omega (arith, long, short))) rows rows' s h.1,
        ))

  module _ (gateway domain : Bytes) (now lease during : ℕ) where
    abbrev Lapsed : Row → Type 0
    Lapsed row =
        has_key gateway domain row ≡ true → (is_live now row ≡ false) ⊎ Lasts (until now lease) row

    abbrev Lasting : Row → Type 0
    Lasting row = has_key gateway domain row ≡ true → Lasts (until now lease) row

    -- The key has no row but one that has expired or that lasts.
    abbrev IsOpen : List Row → Type 0
    IsOpen rows = IsSound rows × All Lapsed rows

    abbrev IsFree : List Row → Type 0
    IsFree rows = IsSound rows × All Lasting rows

    abbrev IsFound : Bytes → List Row → Type 0
    IsFound text rows = (IsSound rows × HeldAt gateway domain during text rows) × IsText text

    module _ (short : during ≤ until now lease) where
      IsOpen-IsStable : IsStable (R now lease during) IsOpen
      IsOpen-IsStable = Steps-IsStable IsText during (until now lease) IsOpen (λ rows rows' s h. (
        Step-IsSound during (until now lease) rows rows' s h.0,
        Step-All IsText during (until now lease) Lapsed (λ new t l _. inr l)
            (λ row e long _ _. inr (e, refl, long)) rows rows' s h.1,
      ))

      IsFree-IsStable : IsStable (R now lease during) IsFree
      IsFree-IsStable = Steps-IsStable IsText during (until now lease) IsFree (λ rows rows' s h. (
        Step-IsSound during (until now lease) rows rows' s h.0,
        Step-All IsText during (until now lease) Lasting (λ new t l _. l)
            (λ row e long _ _. (e, refl, long)) rows rows' s h.1,
      ))

      IsFound-IsStable : (text : Bytes) → IsStable (R now lease during) (IsFound text)
      IsFound-IsStable text =
          Steps-IsStable IsText during (until now lease) (IsFound text) (λ rows rows' s h. (
            (
              Step-IsSound during (until now lease) rows rows' s h.0.0,
              Step-HeldAt IsText gateway domain during (until now lease) during text (omega arith)
                  short rows rows' s h.0.1,
            ),
            h.1,
          ))

      Leased-IsStable :
          (ip : Addr) → IsStable (R now lease during) (Leased gateway domain (until now lease) ip)
      Leased-IsStable ip =
          Steps-IsStable IsText during (until now lease)
            (Leased gateway domain (until now lease) ip)
            (λ rows rows' s (sound, (text, held, read, written)). (
              Step-IsSound during (until now lease) rows rows' s sound,
              (
                text,
                Step-HeldAt IsText gateway domain during (until now lease) (until now lease) text
                    short (omega arith) rows rows' s held,
                read,
                written,
              ),
            ))
