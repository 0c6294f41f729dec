-- ===== src/Crc/Table/Repair.antt =====
-- From the checksum of a message to the repaired message: `modesChecksumInit`,
-- `modesChecksumDiagnose` and `modesChecksumFix` together.
use hpr_readsb.Base.{ℕ, ◌-◌, ◌*◌, ◌≤◌, bit_xor, arith, refl, ◌≡◌, ap, sym, ◌∙◌}
use hpr_readsb.Base.{false, Option, none, some, List, [], All, ==_iff, length, All-get_elem?, subst}
use hpr_readsb.Base.{leb, ◌==◌, ◌&&◌, Bool-cases, Option-cases, inl, inr}
use hpr_readsb.Base.Int.{pos}
use hpr_readsb.Base.Bits.{xor_self}
use hpr_readsb.Crc.{checksum, modes_checksum, short_msg_bits, long_msg_bits}
use hpr_readsb.Crc.Syndrome.{Layout, short, long}
use hpr_readsb.Crc.Table.{ErrorInfo, SortAndSearch, Tables, repairable}
use hpr_readsb.Crc.Table.{prepare_subtable, prepare_error_table, table_size, base_entry, no_errors}
use hpr_readsb.Crc.Table.{modes_checksum_init, modes_checksum_diagnose, search_table}
use hpr_readsb.Crc.Table.{modes_checksum_fix, fix_loop, ◌>>=◌, resolve_collisions, max_bit_errors}
use hpr_readsb.Crc.Table.Patterns.{IsPattern, modes_checksum_fix-flip_all, flip_all}
use hpr_readsb.Crc.Table.Patterns.{length-flip_all, checksum-flip_all}
use hpr_readsb.Crc.Table.Entries.{IsSortAndSearch, >>=-eq-some, base_entry-Names}
use hpr_readsb.Crc.Table.Entries.{prepare_subtable-IsPattern, resolve_collisions-All}

-- A property of each entry of a table, if there is one.
abbrev pub Each : (ErrorInfo → Type 0) → Option (List ErrorInfo) → Type 0
Each P none = Unit {0}
Each P (some t) = All P t

modes_checksum-some :
    (n : ℕ) (msg : List ℕ)
    → 3 ≤ n
    → length msg ≡ n
    → modes_checksum msg (n * 8) ≡ some (checksum n msg)
unfolding modes_checksum
modes_checksum-some n msg h hl = ground arith

-- What a repair by an entry did: it flipped as many bits as the entry counts, at the places that
-- it names, and left a message with no error.
pub record IsRepaired (n : ℕ) (msg : List ℕ) (e : ErrorInfo) : Type 0 where
  pub places : List ℕ
  pub count : e.errors ≡ pos (length places)
  pub fixed : modes_checksum_fix msg (some e) ≡ some (flip_all places msg)
  pub same_length : length (flip_all places msg) ≡ n
  pub clean : modes_checksum (flip_all places msg) (n * 8) ≡ some 0

Layout-size : {n offset : ℕ} → Layout n offset → 3 ≤ n
Layout-size (short en eo) = omega arith
Layout-size (long en eo) = omega arith

IsPattern-IsRepaired :
    {n offset : ℕ} {e : ErrorInfo} (msg : List ℕ)
    → Layout n offset
    → length msg ≡ n
    → IsPattern offset (n * 8) e
    → e.syndrome ≡ checksum n msg
    → IsRepaired n msg e
IsPattern-IsRepaired {n} msg l hl p hs =
    let same = length-flip_all p.places msg ∙ hl in
    record {
      places = p.places;
      count = p.names.count;
      fixed = modes_checksum_fix-flip_all msg p.names (ap (λ t. t * 8) hl);
      same_length = same;
      clean =
          modes_checksum-some n (flip_all p.places msg) (Layout-size l) same
          ∙ ap some (
              checksum-flip_all p.places msg l hl p.names.below
              ∙ (ap (bit_xor (checksum n msg)) (sym p.names.sum ∙ hs) ∙ xor_self (checksum n msg)));
    }

-- With no syndrome the entry that stands for no error changes nothing.
no_errors-IsRepaired :
    (n : ℕ) (msg : List ℕ)
    → 3 ≤ n
    → length msg ≡ n
    → checksum n msg ≡ 0
    → IsRepaired n msg no_errors
unfolding modes_checksum_fix fix_loop flip_all
no_errors-IsRepaired n msg h hl z = record {
  places = [];
  count = refl;
  fixed = refl;
  same_length = hl;
  clean = modes_checksum-some n msg h hl ∙ ap some z;
}

module _ (lib : SortAndSearch) (laws : IsSortAndSearch lib) where
  prepared :
      (bits max_correct max_detect : ℕ) {t : List ErrorInfo}
      → 5 ≤ bits
      → max_correct ≤ 2
      → prepare_subtable
          (table_size max_correct 1 bits)
          (112 - bits)
          max_correct
          (bits - 5)
          0
          5
          base_entry
          0
        ≡ some t
      → All
          (IsPattern (112 - bits) bits)
          (resolve_collisions lib bits max_correct max_detect (lib.qsort t))
  prepared bits max_correct max_detect {t} h hc e =
      resolve_collisions-All (IsPattern (112 - bits) bits) lib bits max_correct max_detect
        (lib.qsort t)
        (laws.sorts (IsPattern (112 - bits) bits) t (
          prepare_subtable-IsPattern (table_size max_correct 1 bits) (112 - bits) bits max_correct
            (bits - 5) 2 0 5 base_entry 0 (base_entry-Names (112 - bits) bits) hc refl (omega arith)
            e))

  prepare_error_table-Each :
      (bits max_correct max_detect : ℕ) {t : Option (List ErrorInfo)}
      → 5 ≤ bits
      → prepare_error_table lib bits max_correct max_detect ≡ some t
      → Each (IsPattern (112 - bits) bits) t
  unfolding prepare_error_table
  prepare_error_table-Each bits max_correct max_detect {t} h e =
      elim (Bool-cases
        (leb bits 112 && (leb max_correct max_bit_errors && leb max_correct max_detect))) [
          | inr fails ↦ absurd (cc (rw (fails, prepare_error_table) at e))
          | inl holds ↦ elim (Bool-cases (max_correct == 0)) [
            | inl none_to_correct ↦
                let q : none ≡ t = cc (rw (holds, none_to_correct, prepare_error_table) at e) in
                subst (Each (IsPattern (112 - bits) bits)) q tt
            | inr some_to_correct ↦
                let correctable : max_correct ≤ 2 = ground arith in
                let (table, ht, he) =
                  >>=-eq-some _ _ (rw (holds, some_to_correct, prepare_error_table) at e) in
                let q : some (resolve_collisions lib bits max_correct max_detect (lib.qsort table))
                    ≡ t =
                  cc in
                subst (Each (IsPattern (112 - bits) bits)) q
                  (prepared bits max_correct max_detect h correctable ht)
          ]
        ]

  pub record HoldPatterns (t : Tables) : Type 0 where
    pub shorts : Each (IsPattern 56 56) t.short
    pub longs : Each (IsPattern 0 112) t.long

  both_tables :
      (max_correct max_detect : ℕ) {t : Tables}
      → (prepare_error_table lib short_msg_bits max_correct max_detect >>= λ short.
          prepare_error_table lib long_msg_bits max_correct max_detect >>= λ long.
          some (record { short = short; long = long }))
        ≡ some t
      → HoldPatterns t
  both_tables max_correct max_detect {t} h =
      let (s, hs, h1) =
        >>=-eq-some (prepare_error_table lib short_msg_bits max_correct max_detect) _ h in
      let (l, hl, h2) =
        >>=-eq-some (prepare_error_table lib long_msg_bits max_correct max_detect) _ h1 in
      let made : Tables = record { short = s; long = l } in
      let q : made ≡ t = cc in
      subst HoldPatterns q (record {
        shorts = prepare_error_table-Each 56 max_correct max_detect (omega arith) hs;
        longs = prepare_error_table-Each 112 max_correct max_detect (omega arith) hl;
      })

  -- Every entry of the tables that `modesChecksumInit` makes names bits and holds their syndrome.
  modes_checksum_init-HoldPatterns :
      (fix_bits : ℕ) {t : Tables} → modes_checksum_init lib fix_bits ≡ some t → HoldPatterns t
  unfolding modes_checksum_init
  modes_checksum_init-HoldPatterns fix_bits {t} h = elim (Bool-cases (fix_bits == 0)) [
    | inl off ↦
        let made : Tables = record { short = none; long = none } in
        let e : made ≡ t = cc (rw (off, modes_checksum_init) at h) in
        subst HoldPatterns e (record { shorts = tt; longs = tt })
    | inr on ↦ elim (Bool-cases (fix_bits == 1)) [
      | inl one ↦ both_tables 1 1 (rw (on, one, modes_checksum_init) at h)
      | inr more ↦ both_tables 2 4 (rw (on, more, modes_checksum_init) at h)
    ]
  ]

  -- What the search returns is an entry of the table with the syndrome looked for.
  search_table-IsPattern :
      (P : ErrorInfo → Type 0) (syndrome : ℕ) (t : Option (List ErrorInfo)) {e : ErrorInfo}
      → Each P t
      → search_table lib syndrome t ≡ repairable e
      → P e × (e.syndrome ≡ syndrome)
  unfolding search_table
  search_table-IsPattern P syndrome none h r = absurd (cc)
  search_table-IsPattern P syndrome (some t) {e} h r =
      elim (Option-cases (lib.bsearch syndrome t)) [
        | inl missed ↦ absurd (cc (rw (missed, search_table) at r))
        | inr (k, found) ↦
            let (x, at_k, same) = laws.finds syndrome k t found in
            let q : x ≡ e = cc (rw (found, search_table, at_k) at r) in
            subst (λ y. P y × (y.syndrome ≡ syndrome)) q (All-get_elem? P t k x h at_k, same)
      ]

  looked_up :
      {n offset : ℕ} (t : Tables) (syndrome : ℕ) {e : ErrorInfo}
      → HoldPatterns t
      → Layout n offset
      → (syndrome == 0) ≡ false
      → modes_checksum_diagnose lib t syndrome (n * 8) ≡ repairable e
      → IsPattern offset (n * 8) e × (e.syndrome ≡ syndrome)
  unfolding modes_checksum_diagnose
  looked_up t syndrome {e} v (short en eo) nz h =
      rw (en, eo)
        (search_table-IsPattern (IsPattern 56 56) syndrome t.short v.shorts
          (rw (en, nz, modes_checksum_diagnose) at h))
  looked_up t syndrome {e} v (long en eo) nz h =
      rw (en, eo)
        (search_table-IsPattern (IsPattern 0 112) syndrome t.long v.longs
          (rw (en, nz, modes_checksum_diagnose) at h))

  -- With the tables of modesChecksumInit, whenever modesChecksumDiagnose finds an entry for the
  -- checksum of a message of 56 or 112 bits, modesChecksumFix by that entry writes inside the
  -- message, flips as many bits as the entry counts, at the places that it names, and leaves a
  -- message of the same length whose checksum is 0. The library sort is assumed to make up no
  -- entries, and the search to find only entries with the syndrome that it looks for.
  pub diagnose-fix :
      {n offset syndrome : ℕ} {t : Tables} {e : ErrorInfo} (fix_bits : ℕ) (msg : List ℕ)
      → modes_checksum_init lib fix_bits ≡ some t
      → Layout n offset
      → length msg ≡ n
      → modes_checksum msg (n * 8) ≡ some syndrome
      → modes_checksum_diagnose lib t syndrome (n * 8) ≡ repairable e
      → IsRepaired n msg e
  unfolding modes_checksum_diagnose
  diagnose-fix {n} {offset} {syndrome} {t} {e} fix_bits msg hi l hl hs hd =
      let v = modes_checksum_init-HoldPatterns fix_bits hi in
      let same : checksum n msg ≡ syndrome = cc (modes_checksum-some n msg (Layout-size l) hl) in
      elim (Bool-cases (syndrome == 0)) [
        | inl clean ↦
            let q : no_errors ≡ e = cc (rw (clean, modes_checksum_diagnose) at hd) in
            subst (IsRepaired n msg) q
              (no_errors-IsRepaired n msg (Layout-size l) hl (same ∙ (==_iff syndrome 0).0 clean))
        | inr dirty ↦
            let (p, e_syndrome) = looked_up t syndrome v l dirty hd in
            IsPattern-IsRepaired msg l hl p (e_syndrome ∙ sym same)
      ]
