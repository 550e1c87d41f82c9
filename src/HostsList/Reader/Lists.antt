-- ===== src/HostsList/Reader/Lists.antt =====
-- `parse_entries_json` of rust-core/bedterm-ios/src/hosts/model.rs reads back a whole list.
use bed_term.Prelude.{
  ℕ, zero, suc, ◌<◌, ◌≡◌, refl, sym, ap, subst, ◌∙◌, false, List, [], ◌∷◌, ◌++◌, append_assoc,
  arith, length, Forall,
}
use bed_term.Prelude.Decimal.{print_ℕ}
use bed_term.Prelude.Text.{codes, Text, is_empty}
use bed_term.ConnectForm.Address.{is_whitespace, trim_start, trim_end, trim}
use bed_term.ConnectForm.Address.Trim.{trim_end_behind}
use bed_term.HostsList.{HostListEntry, Outcome, parsed, and_then, skip_ws}
use bed_term.HostsList.Reader.{
  follow, array_behind, array_round, array_loop, open_array, parse_array, entries, entries_of,
  parse_entries_json,
}
use bed_term.HostsList.Reader.Strings.{quote}
use bed_term.HostsList.Reader.Written.{write_bool, member, write_entry, write_more, write_entries}
use bed_term.HostsList.Reader.RoundTrip.{length-member, parse_entry-write_entry}

-- The port of an entry is a `u16`.
abbrev pub HasPort : HostListEntry → Type 0
HasPort e = e.port < 65536

length-write_entry : (e : HostListEntry) (rest : Text) → length rest < length (write_entry e rest)
unfolding write_entry
length-write_entry e rest =
    let s₆ = member (codes "authIsKey") (write_bool e.auth_is_key) (b'}' ∷ rest) in
    let s₅ = member (codes "username") (quote e.username) (b',' ∷ s₆) in
    let s₄ = member (codes "port") (print_ℕ e.port) (b',' ∷ s₅) in
    let s₃ = member (codes "host") (quote e.host) (b',' ∷ s₄) in
    let s₂ = member (codes "label") (quote e.label) (b',' ∷ s₃) in
    omega (
      arith,
      length-member (codes "authIsKey") (write_bool e.auth_is_key) (b'}' ∷ rest),
      length-member (codes "username") (quote e.username) (b',' ∷ s₆),
      length-member (codes "port") (print_ℕ e.port) (b',' ∷ s₅),
      length-member (codes "host") (quote e.host) (b',' ∷ s₄),
      length-member (codes "label") (quote e.label) (b',' ∷ s₃),
      length-member (codes "id") (quote e.id) (b',' ∷ s₂),
    )

skip_ws-write_entry :
    (e : HostListEntry) (rest : Text) → skip_ws (write_entry e rest) ≡ write_entry e rest
unfolding write_entry skip_ws
skip_ws-write_entry e rest = refl

array_round_entry :
    (again : List HostListEntry → Text → Outcome (List HostListEntry)) (acc : List HostListEntry)
    (e : HostListEntry) (rest : Text)
    → HasPort e
    → array_round again acc (skip_ws (write_entry e rest))
      ≡ array_behind again (acc ++ (e ∷ [])) (follow b']' (skip_ws rest))
unfolding array_round write_entry
array_round_entry again acc e rest h =
    ap (array_round again acc) (skip_ws-write_entry e rest)
    ∙ ap
        (λ (o : Outcome HostListEntry).
          and_then o (λ x r. array_behind again (acc ++ (x ∷ [])) (follow b']' (skip_ws r))))
        (parse_entry-write_entry e rest h)

array_loop-write_more :
    (fuel : ℕ) (acc : List HostListEntry) (e : HostListEntry) (es : List HostListEntry)
    → HasPort e
    → Forall HasPort es
    → length (write_entry e (write_more es)) < fuel
    → array_loop fuel acc (write_entry e (write_more es)) ≡ parsed (acc ++ (e ∷ es)) (b']' ∷ [])
unfolding array_loop write_more array_behind follow skip_ws
array_loop-write_more zero acc e es h hs l = absurd (omega arith)
array_loop-write_more (suc fuel) acc e [] h hs l =
    array_round_entry (array_loop fuel) acc e (b']' ∷ []) h
array_loop-write_more (suc fuel) acc e (x ∷ xs) h hs l =
    array_round_entry (array_loop fuel) acc e (b',' ∷ write_entry x (write_more xs)) h
    ∙ array_loop-write_more fuel (acc ++ (e ∷ [])) x xs hs.0 hs.1
        (omega (arith, length-write_entry e (b',' ∷ write_entry x (write_more xs))))
    ∙ ap (λ (l' : List HostListEntry). parsed l' (b']' ∷ [])) (append_assoc acc (e ∷ []) (x ∷ xs))

parse_array-write_entries :
    (es : List HostListEntry)
    → Forall HasPort es
    → (rest : Text) × (parse_array (write_entries es) ≡ parsed es rest)
unfolding parse_array open_array write_entries skip_ws
parse_array-write_entries [] h = ([], unfold array_loop array_round in refl)
parse_array-write_entries (e ∷ es) h = (
  b']' ∷ [],
  array_loop-write_more (suc (length (write_entry e (write_more es)))) [] e es h.0 h.1
      (omega arith),
)

-- A text that does not end in a space, and is not empty.
IsTight : Text → Type 0
IsTight s = (y : ℕ) × (ys : Text) × (s ≡ y ∷ ys) × (trim_end s ≡ s)

IsTight-append : (xs s : Text) → IsTight s → IsTight (xs ++ s)
unfolding IsTight
IsTight-append [] s h = h
IsTight-append (x ∷ xs) s (y, ys, e, k) = (
  x,
  xs ++ s,
  refl,
  subst (λ (t : Text). trim_end (x ∷ (xs ++ t)) ≡ x ∷ (xs ++ t)) (sym e)
      (trim_end_behind (x ∷ xs) y ys (subst (λ (t : Text). trim_end t ≡ t) e k)),
)

IsTight-member : (key value tail : Text) → IsTight tail → IsTight (member key value tail)
unfolding member
IsTight-member key value tail h =
    IsTight-append (quote key) _ (IsTight-append (b':' ∷ []) _ (IsTight-append value tail h))

IsTight-cons : (c : ℕ) (s : Text) → IsTight s → IsTight (c ∷ s)
IsTight-cons c s h = IsTight-append (c ∷ []) s h

IsTight-write_entry :
    (e : HostListEntry) (rest : Text) → IsTight rest → IsTight (write_entry e rest)
unfolding write_entry
IsTight-write_entry e rest h = IsTight-cons b'{' _ (
    IsTight-member (codes "id") (quote e.id) _ (
      IsTight-cons b',' _ (
        IsTight-member (codes "label") (quote e.label) _ (
          IsTight-cons b',' _ (
            IsTight-member (codes "host") (quote e.host) _ (
              IsTight-cons b',' _ (
                IsTight-member (codes "port") (print_ℕ e.port) _ (
                  IsTight-cons b',' _ (
                    IsTight-member (codes "username") (quote e.username) _ (
                      IsTight-cons b',' _ (
                        IsTight-member (codes "authIsKey") (write_bool e.auth_is_key) _
                          (IsTight-cons b'}' rest h))))))))))))

bracket-IsTight : IsTight (b']' ∷ [])
unfolding IsTight trim_end is_whitespace
bracket-IsTight = (b']', [], refl, refl)

IsTight-write_more : (es : List HostListEntry) → IsTight (write_more es)
unfolding write_more
IsTight-write_more [] = bracket-IsTight
IsTight-write_more (e ∷ es) =
    IsTight-cons b',' _ (IsTight-write_entry e (write_more es) (IsTight-write_more es))

trim-write_entries : (es : List HostListEntry) → trim (write_entries es) ≡ write_entries es
unfolding write_entries trim trim_start is_whitespace IsTight
trim-write_entries [] = unfold trim_end in refl
trim-write_entries (e ∷ es) =
    (IsTight-cons b'[' _ (IsTight-write_entry e (write_more es) (IsTight-write_more es))).3

is_empty-write_entries : (es : List HostListEntry) → is_empty (write_entries es) ≡ false
unfolding write_entries
is_empty-write_entries [] = refl
is_empty-write_entries (e ∷ es) = refl

-- Every list of entries is read back from its JSON, with the members in the order of the comment
-- at the parser and quotes, backslashes, line feeds, carriage returns and tabs escaped; for ports
-- below 2^16.
pub parse_entries_json-write_entries :
    (es : List HostListEntry)
    → Forall HasPort es
    → parse_entries_json (write_entries es) ≡ entries es
unfolding parse_entries_json entries_of
parse_entries_json-write_entries es h =
    let (rest, p) = parse_array-write_entries es h in
    rw (trim-write_entries es, p, is_empty-write_entries es) refl
