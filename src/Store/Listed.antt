-- ===== src/Store/Listed.antt =====
-- The result of `KeyStore::list` against the directory.
use keyvisor.Files.Atomic.{read-nodes}
use keyvisor.Wire.Endian.{Bytes}
use keyvisor.Core.{as_str}
use keyvisor.Files.Paths.{FilePath}
use keyvisor.Prelude.{
  ℕ, ◌≡◌, refl, sym, ap, ◌∙◌, subst, ◌⊎◌, inl, inr, true, false, Option, none, some, List, [], ◌∷◌,
  ◌++◌, arith, Bool-cases, All, ok, ok-injective, All-map, map_err-eq-ok, then_do, then_do-ok,
}
use keyvisor.Files.Defs.{
  file, directory, special, Files, Node, node_at, contents, read, unless_fault, found, tick,
  node_at-tick,
}
use keyvisor.Store.Defs.{StoredKey, decode, io}
use keyvisor.Store.Ops.{from_io}
use keyvisor.Store.Listing.{
  list, read_dir, list_entries, is_less, insert_key, sort_keys, has_key_extension, read_record,
  read_records,
}

-- A key is one of a list.
abbrev pub Among : StoredKey → List StoredKey → Type 0
Among key [] = ⊥
Among key (k ∷ keys) = (k ≡ key) ⊎ Among key keys

-- No identifier is less than the one before it.
abbrev pub Ordered : List StoredKey → Type 0
Ordered [] = Unit
Ordered (k ∷ []) = Unit
Ordered (k ∷ key ∷ keys) =
    (is_less (as_str key.summary.id) (as_str k.summary.id) ≡ false) × Ordered (key ∷ keys)

is_less-asymmetric : (a b : Bytes) → is_less a b ≡ true → is_less b a ≡ false
unfolding is_less
is_less-asymmetric [] [] h = cc
is_less-asymmetric [] (b ∷ bs) h = refl
is_less-asymmetric (a ∷ as') [] h = cc
is_less-asymmetric (a ∷ as') (b ∷ bs) h = ground (arith, is_less-asymmetric as' bs)

insert_key-Ordered :
    (key : StoredKey) (keys : List StoredKey) → Ordered keys → Ordered (insert_key key keys)
unfolding insert_key
insert_key-Ordered key [] h = tt
insert_key-Ordered key (k ∷ []) h =
    elim (Bool-cases (is_less (as_str k.summary.id) (as_str key.summary.id))) [
      | inl e ↦ rw e (is_less-asymmetric _ _ e, tt)
      | inr e ↦ rw e (e, tt)
    ]
insert_key-Ordered key (k ∷ l ∷ keys) (first, h) =
    elim (Bool-cases (is_less (as_str k.summary.id) (as_str key.summary.id))) [
      | inl e ↦ rw e (elim (Bool-cases (is_less (as_str l.summary.id) (as_str key.summary.id))) [
        | inl f ↦ let rest = insert_key-Ordered key (l ∷ keys) h in rw f (first, rw f at rest)
        | inr f ↦ rw f (is_less-asymmetric _ _ e, (f, h))
      ])
      | inr e ↦ rw e (e, (first, h))
    ]

sort_keys-Ordered : (keys : List StoredKey) → Ordered (sort_keys keys)
unfolding sort_keys
sort_keys-Ordered [] = tt
sort_keys-Ordered (key ∷ keys) = insert_key-Ordered key (sort_keys keys) (sort_keys-Ordered keys)

Among-pass :
    (a key k : StoredKey) (keys keys' : List StoredKey)
    → (a ≡ key) ⊎ Among key (k ∷ keys)
    → ((a ≡ key) ⊎ Among key keys → Among key keys')
    → Among key (k ∷ keys')
Among-pass a key k keys keys' (inl e) f = inr (f (inl e))
Among-pass a key k keys keys' (inr (inl e)) f = inl e
Among-pass a key k keys keys' (inr (inr m)) f = inr (f (inr m))

insert_key-Among :
    (a key : StoredKey) (keys : List StoredKey)
    → (a ≡ key) ⊎ Among key keys
    → Among key (insert_key a keys)
unfolding insert_key
insert_key-Among a key [] h = h
insert_key-Among a key (k ∷ keys) h =
    elim (Bool-cases (is_less (as_str k.summary.id) (as_str a.summary.id))) [
      | inl e ↦ rw e (Among-pass a key k keys _ h (insert_key-Among a key keys))
      | inr e ↦ rw e h
    ]

sort_keys-Among :
    (key : StoredKey) (keys : List StoredKey) → Among key keys → Among key (sort_keys keys)
unfolding sort_keys
sort_keys-Among key [] m = m
sort_keys-Among key (k ∷ keys) (inl e) = insert_key-Among k key (sort_keys keys) (inl e)
sort_keys-Among key (k ∷ keys) (inr m) =
    insert_key-Among k key (sort_keys keys) (inr (sort_keys-Among key keys m))

found-eq-ok :
    (o : Option Node) {bytes : Bytes}
    → found contents o ≡ ok bytes
    → (n : Node) × (o ≡ some n) × (contents n ≡ ok bytes)
unfolding found
found-eq-ok none h = cc
found-eq-ok (some n) h = (n, refl, h)

read-eq-ok :
    (p : FilePath) (fs : Files) {bytes : Bytes}
    → (read p fs).0 ≡ ok bytes
    → (n : Node) × (node_at p fs ≡ some n) × (contents n ≡ ok bytes)
unfolding read unless_fault
read-eq-ok p fs h =
    let h' : found contents (node_at p (tick fs)) ≡ ok _ = ground arith in
    let (n, e, k) = found-eq-ok (node_at p (tick fs)) h' in (n, sym (node_at-tick p fs) ∙ e, k)

only :
    (key : StoredKey) (more : List StoredKey) (k : StoredKey)
    → Among k (key ∷ [])
    → Among k (key ∷ more)
only key more k (inl e) = inl e
only key more k (inr m) = absurd m

module _ (store : FilePath) where
  -- An entry whose name ends in `.key` is a regular file, and what is read there decodes to a key
  -- of the list.
  abbrev pub IsListed : List StoredKey → Files → Bytes × Node → Type 0
  IsListed keys fs (name, node) =
      has_key_extension name ≡ true
      → ((mode : ℕ) × (held : Bytes) × (node ≡ file mode held))
        × ((n : Node) × (bytes : Bytes) × (key : StoredKey) × (node_at (store ++ name ∷ []) fs
              ≡ some n)
            × (contents n ≡ ok bytes)
            × (decode bytes ≡ ok key)
            × Among key keys)

  IsListed-more :
      (keys keys' : List StoredKey) (fs : Files) (entries : List (Bytes × Node))
      → ((key : StoredKey) → Among key keys → Among key keys')
      → All (IsListed keys fs) entries
      → All (IsListed keys' fs) entries
  IsListed-more keys keys' fs entries more all =
      All-map
        (λ entry listed named.
          let (is-file, (n, bytes, key, a, b, c, m)) = listed named in
          (is-file, (n, bytes, key, a, b, c, more key m)))
        entries all

  pub read_record-nodes :
      (p : FilePath) (name : Bytes) (node : Node) (fs : Files)
      → node_at p (read_record store name node fs).1 ≡ node_at p fs
  unfolding read_record from_io then_do
  read_record-nodes p name (file mode held) fs =
      ground (arith, read-nodes (store ++ name ∷ []) p fs)
  read_record-nodes p name (directory mode) fs = refl
  read_record-nodes p name (special s) fs = refl

  read_record-IsListed :
      (name : Bytes) (node : Node) (fs : Files) (key : StoredKey)
      → (read_record store name node fs).0 ≡ ok key
      → IsListed (key ∷ []) fs (name, node)
  unfolding read_record from_io
  read_record-IsListed name (file mode held) fs key h named =
      let (bytes, e, _, decoded) = then_do-ok (from_io (read (store ++ name ∷ [])) fs) _ h in
      let (n, here, inside) = read-eq-ok (store ++ name ∷ []) fs (map_err-eq-ok io _ e) in
      ((mode, held, refl), (n, bytes, key, here, inside, decoded, inl refl))
  read_record-IsListed name (directory mode) fs key h named = cc
  read_record-IsListed name (special s) fs key h named = cc

  -- Where the nodes are the same.
  IsListed-same :
      (keys : List StoredKey) (fs fs' : Files) (entries : List (Bytes × Node))
      → ((p : FilePath) → node_at p fs' ≡ node_at p fs)
      → All (IsListed keys fs') entries
      → All (IsListed keys fs) entries
  IsListed-same keys fs fs' entries same all =
      All-map
        (λ (name, node) listed named.
          let (is-file, (n, bytes, key, a, b, c, m)) = listed named in
          (is-file, (n, bytes, key, sym (same (store ++ name ∷ [])) ∙ a, b, c, m)))
        entries all

  read_records-IsListed :
      (entries : List (Bytes × Node)) (fs : Files) (keys : List StoredKey)
      → (read_records store entries fs).0 ≡ ok keys
      → All (IsListed keys fs) entries
  unfolding read_records
  read_records-IsListed [] fs keys h = tt
  read_records-IsListed ((name, node) ∷ entries) fs keys h =
      elim (Bool-cases (has_key_extension name)) [
        | inr e ↦
            let rest : (read_records store entries fs).0 ≡ ok keys = rw (read_records, e) at h in
            (λ named. cc, read_records-IsListed entries fs keys rest)
        | inl e ↦
            let (key, read-it, _, h₁) =
              then_do-ok (read_record store name node fs) _ (rw (read_records, e) at h) in
            let (more, listed, _, same) =
              then_do-ok (read_records store entries (read_record store name node fs).1) _ h₁ in
            let fs₁ = (read_record store name node fs).1 in
            let (first, _) =
              IsListed-more (key ∷ []) (key ∷ more) fs ((name, node) ∷ []) (only key more)
                (read_record-IsListed name node fs key read-it, tt) in
            let all =
              IsListed-same (key ∷ more) fs fs₁ entries (λ p. read_record-nodes p name node fs)
                (IsListed-more more (key ∷ more) fs₁ entries (λ k m. inr m)
                  (read_records-IsListed entries fs₁ more listed)) in
            subst (λ keys'. All (IsListed keys' fs) ((name, node) ∷ entries)) (ok-injective same)
              (first, all)
      ]

  -- A listing that succeeds, where the directory can be read, is in the order of the identifiers
  -- and complete: each entry named as a key is a regular file, and the key that its bytes decode to
  -- is in the list. One malformed record fails it.
  pub list_lem :
      (fs : Files) (entries : List (Bytes × Node)) (keys : List StoredKey)
      → (read_dir store fs).0 ≡ ok entries
      → (list store fs).0 ≡ ok keys
      → Ordered keys × All (IsListed keys (read_dir store fs).1) entries
  unfolding list list_entries
  list_lem fs entries keys found h =
      let fs₁ = (read_dir store fs).1 in
      let h' : (list_entries store (ok entries) fs₁).0 ≡ ok keys =
        ap (λ r. (list_entries store r fs₁).0) (sym found) ∙ h in
      let (unsorted, read-them, _, same) =
        then_do-ok (read_records store entries fs₁) (λ keys' fs'. (ok (sort_keys keys'), fs')) h' in
      subst (λ keys'. Ordered keys' × All (IsListed keys' fs₁) entries) (ok-injective same)
        (
          sort_keys-Ordered unsorted,
          IsListed-more unsorted (sort_keys unsorted) fs₁ entries
              (λ k m. sort_keys-Among k unsorted m)
              (read_records-IsListed entries fs₁ unsorted read-them),
        )
