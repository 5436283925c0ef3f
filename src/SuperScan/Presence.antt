-- ===== src/SuperScan/Presence.antt =====
-- Which rows are present after a whole scan, of any mode.
use phone_app.Base.{
  ℕ, ◌+◌, ◌≡◌, refl, ◌∙◌, ap, Bool, true, false, not, ◌&&◌, ◌||◌, Option, none, some, List, [], ◌∷◌,
  ◌++◌, arith, inl, inr, Bool-cases, if◌then◌else◌, Text, eqb,
}
use phone_app.Base.{take, any, is_in, eqb_sound, eqb_refl}
use phone_app.SuperScan.{
  not_tested, TestStatus, Item, Capability, has_key, find_row, read_pass, writable_items,
}
use phone_app.SuperScan.Active.{
  Devices, Counts, save_status, confirm, save_test, finish_test, test_item, test_pass, no_counts,
}
use phone_app.SuperScan.Rows.{is_present, is_live, is_item, sweep-live, read_pass-live}
use phone_app.SuperScan.Deep.{
  Symbol, Mode, passive, quick, full, deep, deep_scan_gvls, unknown_symbol, is_empty, identifier_of,
  unknown_row, upsert_unknown, Scanner, known_names, unknown_each, unknown_found, deep_unknown_pass,
  test_after, read_and_test, finish_scan, scan_unknown, run_scan,
}

save_status-live :
    (it : Item) (status : TestStatus) (run : ℕ) (rows : List Capability) (d i : Text)
    → is_live run (find_row d i (save_status it status rows)) ≡ is_live run (find_row d i rows)
unfolding find_row save_status has_key
save_status-live it status run [] d i = refl
save_status-live it status run (c ∷ cs) d i = ground (arith, save_status-live it status run cs d i)

confirm-live :
    (it : Item) (run : ℕ) (rows : List Capability) (d i : Text)
    → is_live run (find_row d i (confirm it rows)) ≡ is_live run (find_row d i rows)
unfolding find_row confirm has_key
confirm-live it run [] d i = refl
confirm-live it run (c ∷ cs) d i = ground (arith, confirm-live it run cs d i)

module _ {S : Type 0} (p : Devices S) where
  test_item-live :
      (it : Item) (n : Counts) (run : ℕ) (rows : List Capability) (s : S) (d i : Text)
      → is_live run (find_row d i (test_item p it n rows s).1) ≡ is_live run (find_row d i rows)
  unfolding test_item finish_test save_test
  test_item-live it n run rows s d i = ground (
    arith,
    confirm-live it run rows d i,
    save_status-live it TestStatus.tested_failed run rows d i,
    save_status-live it TestStatus.unavailable run rows d i,
  )

  test_pass-live :
      (its : List Item) (n : Counts) (run : ℕ) (rows : List Capability) (s : S) (d i : Text)
      → is_live run (find_row d i (test_pass p its n rows s).2) ≡ is_live run (find_row d i rows)
  unfolding test_pass
  test_pass-live [] n run rows s d i = refl
  test_pass-live (it ∷ its) n run rows s d i =
      let (n1, rows1, s1) = test_item p it n rows s in
      ground (arith, test_item-live it n run rows s d i, test_pass-live its n1 run rows1 s1 d i)

has_key-same :
    (u v d i : Text) (c : Capability) → has_key u v c ≡ true → has_key d i c ≡ (eqb u d && eqb v i)
unfolding has_key
has_key-same u v d i c same = ground (arith, eqb_sound c.device_type u, eqb_sound c.identifier v)

-- A row with another key than `u` and `v`, where it is the one looked for.
has_key-other :
    (u v d i : Text) (c : Capability)
    → has_key u v c ≡ false
    → has_key d i c ≡ true
    → eqb u d && eqb v i ≡ false
unfolding has_key
has_key-other u v d i c other here = ground (
  arith,
  eqb_sound c.device_type d,
  eqb_sound c.identifier i,
  eqb_sound u d,
  eqb_sound v i,
  eqb_refl d,
  eqb_refl i,
)

new_row-live :
    (run : ℕ) (c : Capability) (b : Bool)
    → is_live run (some c) ≡ true
    → is_live run (if b then some c else none) ≡ (b || false)
new_row-live run c true live = live
new_row-live run c false live = refl

upsert_unknown-live :
    (sym : Symbol) (run : ℕ) (rows : List Capability) (d i : Text)
    → is_live run (find_row d i (upsert_unknown sym run rows))
      ≡ ((eqb unknown_symbol d && eqb (identifier_of sym) i) || is_live run (find_row d i rows))
unfolding find_row upsert_unknown unknown_row has_key
upsert_unknown-live sym run [] d i =
    new_row-live run (unknown_row sym run not_tested false) _ (ground arith)
upsert_unknown-live sym run (c ∷ cs) d i =
    let u = unknown_symbol in
    let v = identifier_of sym in
    elim (Bool-cases (has_key u v c)) [
      | inl same ↦ ground (arith, has_key-same u v d i c same)
      | inr other ↦
          ground (arith, has_key-other u v d i c other, upsert_unknown-live sym run cs d i)
    ]

any-append : (f : Text → Bool) (xs ys : List Text) → any f (xs ++ ys) ≡ (any f xs || any f ys)
any-append f [] ys = refl
any-append f (x ∷ xs) ys = ground (arith, any-append f xs ys)

-- A symbol of a scanned GVL, named so, that no known device touches.
abbrev pub is_unmodelled : (ℕ → List Text) → List Item → Text → Symbol → Bool
is_unmodelled raw_names known i sym =
    eqb (take 100 sym.full_name) i
    && is_in sym.gvl deep_scan_gvls
    && not (is_empty sym.full_name)
    && not (any (λ it. is_in sym.full_name (raw_names it.obj)) known)

abbrev pub is_deep : Mode → Bool
is_deep passive = false
is_deep quick = false
is_deep full = false
is_deep deep = true

abbrev pub symbols_of : Option (List Symbol) → List Symbol
symbols_of none = []
symbols_of (some syms) = syms

-- One trip of the loop, as far as one row is concerned.
choose-live :
    {X : Type 0} (dead skip note : X) (done live : X → Bool)
    (cancelled scanned nameless taken taken' here key rest before : Bool)
    → taken ≡ taken'
    → done dead ≡ false
    → (done skip ≡ true → live skip ≡ ((here && rest) || before))
    → (done note ≡ true → live note ≡ ((here && rest) || ((here && key) || before)))
    → let r =
        if cancelled
        then dead
        else if not scanned
        then skip
        else if nameless || taken
        then skip
        else note in
      done r ≡ true
      → live r ≡ ((here && ((key && scanned && not nameless && not taken') || rest)) || before)
choose-live dead skip note done live cancelled scanned nameless taken taken' here key rest before =
    ground arith

module _ {S : Type 0} (p : Scanner S) where
  open p use {raw_var_names, refresh_cache, devices, read_value}

  known_names-any :
      (x : Text) (known : List Item)
      → is_in x (known_names p known) ≡ any (λ it. is_in x (raw_var_names it.obj)) known
  unfolding known_names
  known_names-any x [] = refl
  known_names-any x (it ∷ its) =
      any-append (eqb x) (raw_var_names it.obj) (known_names p its)
      ∙ ap (λ b. is_in x (raw_var_names it.obj) || b) (known_names-any x its)

  unknown_each-live :
      (run : ℕ) (known : List Item) (syms : List Symbol) (n : ℕ) (rows : List Capability) (s : S)
      (d i : Text)
      → let (done, _, after, _) = unknown_each p run (known_names p known) syms n rows s in
        done ≡ true
        → is_live run (find_row d i after) ≡ (
            (eqb unknown_symbol d && any (is_unmodelled raw_var_names known i) syms)
            || is_live run (find_row d i rows))
  unfolding unknown_each
  unknown_each-live run known [] n rows s d i = ground arith
  unknown_each-live run known (sym ∷ syms) n rows s d i =
      let names = known_names p known in
      let s1 = (p.check_cancel s).1 in
      let next = upsert_unknown sym run rows in
      choose-live (false, n, rows, s1) (unknown_each p run names syms n rows s1)
        (unknown_each p run names syms (n + 1) next s1) (λ r. r.0)
        (λ r. is_live run (find_row d i r.2)) (p.check_cancel s).0 (is_in sym.gvl deep_scan_gvls)
        (is_empty sym.full_name) (is_in sym.full_name names)
        (any (λ it. is_in sym.full_name (raw_var_names it.obj)) known) (eqb unknown_symbol d)
        (eqb (identifier_of sym) i) (any (is_unmodelled raw_var_names known i) syms)
        (is_live run (find_row d i rows)) (known_names-any sym.full_name known) refl
        (unknown_each-live run known syms n rows s1 d i)
        (λ done.
          unknown_each-live run known syms (n + 1) next s1 d i done
          ∙ ap (λ b. (eqb unknown_symbol d && any (is_unmodelled raw_var_names known i) syms) || b)
              (upsert_unknown-live sym run rows d i))

  read_and_test-live :
      (mode : Mode) (run : ℕ) (known : List Item) (rows : List Capability) (s : S) (d i : Text)
      → let (done, _, after, _) = read_and_test p mode run known rows s in
        done ≡ true
        → is_live run (find_row d i after)
          ≡ (any (is_item d i) known || is_live run (find_row d i rows))
  unfolding read_and_test test_after
  read_and_test-live mode run known rows s d i =
      let (_, rows1, s1) = read_pass devices.cancel_requested read_value run known rows s in
      ground (
        arith,
        read_pass-live devices.cancel_requested read_value run known rows s d i,
        test_pass-live devices (writable_items known) no_counts run rows1 s1 d i,
      )

  -- After a scan of any mode that is not cancelled, a capability that this run had not touched before is
  -- marked present exactly if it is one of the known ones, whether or not its read or its test has
  -- worked, or, in a deep scan, the unknown symbol of that identifier: the discovery cache, refreshed when
  -- the tests are over, lists a symbol of a scanned GVL that no known device touches and whose full name,
  -- cut at 100 characters, is the identifier.
  pub scan_presence :
      (mode : Mode) (run : ℕ) (known : List Item) (rows : List Capability) (s : S) (d i : Text)
      → is_live run (find_row d i rows) ≡ false
      → (run_scan p mode run known rows s).0 ≡ true
      → let tested = (read_and_test p mode run known rows s).3 in
        let symbols = symbols_of (refresh_cache tested).0 in
        is_present (find_row d i (run_scan p mode run known rows s).1) ≡ (
          any (is_item d i) known
          || (is_deep mode
              && eqb unknown_symbol d
              && any (is_unmodelled raw_var_names known i) symbols))
  unfolding run_scan scan_unknown finish_scan deep_unknown_pass unknown_found
  scan_presence mode run known rows s d i untouched done =
      let (_, _, rows1, s1) = read_and_test p mode run known rows s in
      let (cache, s2) = refresh_cache s1 in
      let syms = symbols_of cache in
      let after = unknown_each p run (known_names p known) syms 0 rows1 s2 in
      ground (
        arith,
        sweep-live run rows1 d i,
        sweep-live run after.2 d i,
        read_and_test-live mode run known rows s d i,
        unknown_each-live run known syms 0 rows1 s2 d i,
      )
