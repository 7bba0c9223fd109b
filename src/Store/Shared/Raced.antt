-- ===== src/Store/Shared/Raced.antt =====
-- An allocation whose row is gone before its lease is renewed.
use ts_domain_gateway.Common.{
  ℕ, ◌+◌, ◌≡◌, ◌∙◌, ap, refl, false, List, [], ◌∷◌, Option, none, some, nat_eq, list_eq, arith,
}
use ts_domain_gateway.GoText.{Bytes}
use ts_domain_gateway.Net.{Addr, Prefix}
use ts_domain_gateway.Alloc.{lookup_key_live}
use ts_domain_gateway.Store.{
  Row, Registry, has_key, select_key, update_expiry, take_row, find_or_insert, allocate_miss,
  sql_allocate, statement, run_statement, interfere, renew, set_renewed, remembered, remember_hit,
  cached_key, unix_nano,
}
use ts_domain_gateway.Store.Leased.{row_of}
use ts_domain_gateway.Store.Others.{update_expiry-held}

-- No statement of the registry fails, and other instances do `f` before the next and `g` before the one
-- behind it.
abbrev pub IsRaced : Registry → (f g : List Row → List Row) → Type 0
IsRaced s f g = (s.faults ≡ []) × ((rest : List (List Row → List Row)) × (s.others ≡ f ∷ g ∷ rest))

abbrev calm : Registry → (f g : List Row → List Row) → List (List Row → List Row) → Registry
calm s f g rest = record s { faults = []; others = f ∷ g ∷ rest }

module _ (to_text : Addr → Bytes) (parse_addr : Bytes → Option Addr) (gateway domain : Bytes)
    (now lease : ℕ) (f g : List Row → List Row) where
  take_row_raced :
      (text : Bytes) (ip : Addr) (s : Registry) (rest : List (List Row → List Row))
      → parse_addr text ≡ some ip
      → ((take_row to_text parse_addr gateway domain now lease text
            (record s { faults = []; others = g ∷ rest })).0
          ≡ some ip)
        × ((take_row to_text parse_addr gateway domain now lease text
              (record s { faults = []; others = g ∷ rest })).1.table
            ≡ update_expiry gateway domain (unix_nano (now + lease)) (g s.table))
  unfolding take_row remember_hit remembered renew set_renewed statement run_statement interfere
  take_row_raced text ip s rest read = (rw read refl, rw read refl)

  allocate_calm :
      (prefixes : List Prefix) (s : Registry) (rest : List (List Row → List Row)) (row : Row)
      (ip : Addr)
      → (lookup_key_live s.cache gateway domain now).1 ≡ none
      → select_key gateway domain now (f s.table) ≡ some row
      → parse_addr row.ip ≡ some ip
      → ((sql_allocate to_text parse_addr gateway prefixes domain now lease (calm s f g rest)).0
          ≡ some ip)
        × ((sql_allocate to_text parse_addr gateway prefixes domain now lease
              (calm s f g rest)).1.table
            ≡ update_expiry gateway domain (unix_nano (now + lease)) (g (f s.table)))
  unfolding sql_allocate cached_key allocate_miss find_or_insert statement run_statement interfere
  allocate_calm prefixes s rest row ip miss found read =
      let seen = record (calm s f g rest) {
        cache = (lookup_key_live s.cache gateway domain now).0;
      } in
      let left : Registry = record seen { table = f s.table; others = g ∷ rest } in
      let same =
        ap (λ hit. allocate_miss to_text parse_addr gateway prefixes domain now lease hit seen) miss
        ∙ ap (λ o. find_or_insert to_text parse_addr gateway prefixes domain now lease o left)
            found in
      let (result, table) = take_row_raced row.ip ip left rest read in
      (ap (λ r. r.0) same ∙ result, ap (λ r. r.1.table) same ∙ table)

  -- Where Allocate finds a live row of a name that it has not cached, no statement fails, and other
  -- instances give the address of this row to another name before the lease is renewed, as they can once
  -- the row has expired, Allocate returns the address, although the table has it for the other name.
  pub allocate-raced :
      (prefixes : List Prefix) (s : Registry) (row thief : Row) (gateway' domain' : Bytes)
      {ip : Addr}
      → IsRaced s f g
      → (lookup_key_live s.cache gateway domain now).1 ≡ none
      → select_key gateway domain now (f s.table) ≡ some row
      → parse_addr row.ip ≡ some ip
      → row_of gateway' domain' (g (f s.table)) ≡ some thief
      → has_key gateway domain thief ≡ false
      → thief.ip ≡ row.ip
      → ((sql_allocate to_text parse_addr gateway prefixes domain now lease s).0 ≡ some ip)
        × (row_of gateway' domain'
              (sql_allocate to_text parse_addr gateway prefixes domain now lease s).1.table
            ≡ some thief)
        × (parse_addr thief.ip ≡ some ip)
  allocate-raced prefixes s row thief gateway' domain' {ip} (free, (rest, others)) miss found read
        stolen other same =
      let (result, table) = allocate_calm prefixes s rest row ip miss found read in
      let here : s ≡ calm s f g rest =
        ap (λ x. record s { faults = x }) free
        ∙ ap (λ x. record s { faults = []; others = x }) others in
      let run = sql_allocate to_text parse_addr gateway prefixes domain now lease in
      (
        ap (λ v. (run v).0) here ∙ result,
        ap (λ v. row_of gateway' domain' (run v).1.table) here
            ∙ ap (row_of gateway' domain') table
            ∙ update_expiry-held gateway' domain' gateway domain (unix_nano (now + lease))
                (g (f s.table)) stolen
            ∙ ground (arith, other),
        ap parse_addr same ∙ read,
      )
