-- ===== src/Cli/Rows.antt =====
-- The tables as a consumer reads them: lines, and fields between tabs.
use keyvisor.Wire.Utf8.{codes}
use keyvisor.Core.{as_str, KeyUsePolicy}
use keyvisor.Store.Defs.{StoredKey}
use keyvisor.Cli.Tsv.{unescape_tsv, escape_tsv, unescape_tsv-escape_tsv}
use keyvisor.Wire.Lines.{newline, lines, Lacks, IsLine, lines-append}
use keyvisor.Cli.Tables.{join, tab, Encoders, fingerprint, policy_name, key_fields, key_lines}
use keyvisor.Wire.Endian.{Bytes}
use keyvisor.Prelude.{
  ◌<◌, ◌≡◌, refl, sym, ap, ◌∙◌, true, false, Option, none, some, List, [], ◌∷◌, ◌++◌, map,
  append_assoc, append-nil, arith, ◌==◌, length, drop, All, All-append, All-map,
}
use keyvisor.Cli.Arguments.{tsv}

abbrev pub text_of : List Bytes → Bytes
text_of [] = []
text_of (line ∷ lines') = line ++ newline ∷ text_of lines'

-- `field` is what has been read of the current field.
abbrev pub fields_from : Bytes → Bytes → List Bytes
fields_from field [] = field ∷ []
fields_from field (c ∷ s) = elim (c == tab) [
  | true ↦ field ∷ fields_from [] s
  | false ↦ fields_from (field ++ c ∷ []) s
]

abbrev pub rows : Bytes → List (List Bytes)
rows text = map (fields_from []) (lines text)

abbrev pub IsField : Bytes → Type 0
IsField s = Lacks tab s × IsLine s

abbrev pub IsRow : List Bytes → Type 0
IsRow fields = (0 < length fields) × All IsField fields

fields_from-tab :
    (s field rest : Bytes)
    → Lacks tab s
    → fields_from field (s ++ tab ∷ rest) ≡ (field ++ s) ∷ fields_from [] rest
fields_from-tab [] field rest h = rw (append-nil field) refl
fields_from-tab (c ∷ s) field rest (hc, hs) =
    let e : (c == tab) ≡ false = ground arith in
    rw (e, fields_from)
      (fields_from-tab s (field ++ c ∷ []) rest hs ∙ rw (append_assoc field (c ∷ []) s) refl)

fields_from-last : (s field : Bytes) → Lacks tab s → fields_from field s ≡ (field ++ s) ∷ []
fields_from-last [] field h = rw (append-nil field) refl
fields_from-last (c ∷ s) field (hc, hs) =
    let e : (c == tab) ≡ false = ground arith in
    rw (e, fields_from)
      (fields_from-last s (field ++ c ∷ []) hs ∙ rw (append_assoc field (c ∷ []) s) refl)

fields_from-join :
    (fields : List Bytes) → IsRow fields → fields_from [] (join (tab ∷ []) fields) ≡ fields
unfolding join
fields_from-join [] (some_field, all) = absurd (omega arith)
fields_from-join (field ∷ []) (some_field, ((no_tab, line), _)) = fields_from-last field [] no_tab
fields_from-join (field ∷ next ∷ fields) (some_field, ((no_tab, line), rest)) =
    fields_from-tab field [] (join (tab ∷ []) (next ∷ fields)) no_tab
    ∙ ap (λ r. field ∷ r) (fields_from-join (next ∷ fields) (omega arith, rest))

join-IsLine : (fields : List Bytes) → All IsField fields → IsLine (join (tab ∷ []) fields)
unfolding join
join-IsLine [] h = (tt, tt)
join-IsLine (field ∷ []) ((no_tab, line), _) = line
join-IsLine (field ∷ next ∷ fields) ((no_tab, (no_newline, no_return)), rest) =
    let (n, r) = join-IsLine (next ∷ fields) rest in
    (
      All-append _ field (tab ∷ join (tab ∷ []) (next ∷ fields)) no_newline (omega arith, n),
      All-append _ field (tab ∷ join (tab ∷ []) (next ∷ fields)) no_return (omega arith, r),
    )

-- Rows whose fields hold no tab and no line end are read back from the text of their lines.
rows-text_of :
    (table : List (List Bytes))
    → All IsRow table
    → rows (text_of (map (join (tab ∷ [])) table)) ≡ table
rows-text_of [] h = unfold lines in refl
rows-text_of (row ∷ table) ((some_field, all), rest) =
    rw
      (lines-append (join (tab ∷ []) row) (text_of (map (join (tab ∷ [])) table))
        (join-IsLine row all))
      (ap (λ r. r ∷ rows (text_of (map (join (tab ∷ [])) table)))
          (fields_from-join row (some_field, all))
        ∙ ap (λ t. row ∷ t) (rows-text_of table rest))

map-map :
    {A B C : Type 0} (g : B → C) (f : A → B) (xs : List A)
    → map g (map f xs) ≡ map (λ x. g (f x)) xs
map-map g f [] = refl
map-map g f (x ∷ xs) = ap (λ r. g (f x) ∷ r) (map-map g f xs)

All-of :
    {A B : Type 0} (P : B → Type 0) (f : A → B) (xs : List A)
    → All (λ x. P (f x)) xs
    → All P (map f xs)
All-of P f [] h = tt
All-of P f (x ∷ xs) (px, h) = (px, All-of P f xs h)

rows_of :
    {A : Type 0} (title : Bytes) (columns : List Bytes) (fields_of : A → List Bytes) (xs : List A)
    → IsField title
    → IsRow columns
    → All (λ x. IsRow (fields_of x)) xs
    → rows (text_of (title ∷ join (tab ∷ []) columns ∷ map (λ x. join (tab ∷ []) (fields_of x)) xs))
      ≡ (title ∷ []) ∷ columns ∷ map fields_of xs
rows_of title columns fields_of xs titled named all =
    let table = (title ∷ []) ∷ columns ∷ map fields_of xs in
    ap (λ ls. rows (text_of (title ∷ join (tab ∷ []) columns ∷ ls)))
      (sym (map-map (join (tab ∷ [])) fields_of xs))
    ∙ unfold join in
      rows-text_of table ((omega arith, (titled, tt)), (named, All-of IsRow fields_of xs all))

-- An identifier and a fingerprint that are fields.
abbrev pub IsPlainKey : Encoders → StoredKey → Type 0
IsPlainKey encoders key =
    IsField (as_str key.summary.id) × IsField (fingerprint encoders key.summary.public_key)

-- The name of a key from its row.
abbrev pub read_key : List Bytes → Option (Bytes × Bytes × Bytes × Bytes)
read_key (id ∷ name ∷ authorization ∷ fingerprint' ∷ []) =
    some (id, unescape_tsv name, authorization, fingerprint')
read_key _ = none

-- What the table is to say of a key.
abbrev pub described : Encoders → StoredKey → Option (Bytes × Bytes × Bytes × Bytes)
described encoders key = some (
  as_str key.summary.id,
  key.summary.name,
  policy_name key.summary.use_policy,
  fingerprint encoders key.summary.public_key,
)

escaped-IsField : (name : Bytes) → IsField (escape_tsv name)
escaped-IsField name =
    let (e, no_tab, no_newline, no_return) = unescape_tsv-escape_tsv name in
    (no_tab, (no_newline, no_return))

policy_name-IsField : (policy : KeyUsePolicy) → IsField (policy_name policy)
unfolding policy_name
policy_name-IsField keyvisor.Core.no_pin = (omega arith, (omega arith, omega arith))
policy_name-IsField keyvisor.Core.tpm_pin = (omega arith, (omega arith, omega arith))

key_fields-IsRow :
    (encoders : Encoders) (key : StoredKey)
    → IsPlainKey encoders key
    → IsRow (key_fields encoders key)
unfolding key_fields
key_fields-IsRow encoders key (id, print) = (
  omega arith,
  (
    id,
    (escaped-IsField key.summary.name, (policy_name-IsField key.summary.use_policy, (print, tt))),
  ),
)

read_key-key_fields :
    (encoders : Encoders) (keys : List StoredKey)
    → map read_key (map (key_fields encoders) keys) ≡ map (described encoders) keys
unfolding key_fields
read_key-key_fields encoders [] = refl
read_key-key_fields encoders (key ∷ keys) =
    let (e, _, _, _) = unescape_tsv-escape_tsv key.summary.name in
    rw e (ap (λ r. described encoders key ∷ r) (read_key-key_fields encoders keys))

-- A consumer that splits the table of `key list --format tsv` into lines and fields, and takes the
-- escapes out of the names, reads after the two first lines the identifier, the name, the policy and
-- the fingerprint of every key in order, where identifiers and fingerprints have no tab and no line
-- end; a name may have any.
pub read_key-key_lines :
    (encoders : Encoders) (keys : List StoredKey)
    → All (IsPlainKey encoders) keys
    → map read_key (drop 2 (rows (text_of (key_lines encoders tsv keys))))
      ≡ map (described encoders) keys
unfolding key_lines join
read_key-key_lines encoders keys plain =
    ap (λ t. map read_key (drop 2 t))
      (rows_of (codes "KEYVISOR-KEYS-1")
        (codes "id" ∷ codes "name" ∷ codes "authorization" ∷ codes "fingerprint" ∷ [])
        (key_fields encoders) keys (omega arith, (omega arith, omega arith))
        (
          omega arith,
          (
            (omega arith, (omega arith, omega arith)),
            (
              (omega arith, (omega arith, omega arith)),
              (
                (omega arith, (omega arith, omega arith)),
                ((omega arith, (omega arith, omega arith)), tt),
              ),
            ),
          ),
        )
        (All-map (key_fields-IsRow encoders) keys plain))
    ∙ read_key-key_fields encoders keys
