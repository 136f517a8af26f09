-- ===== src/File/Table.antt =====
-- Descriptors that are opened and closed.
use amog_os.Base.{
  ℕ, zero, suc, ◌+◌, ◌-◌, ◌<◌, ◌≤◌, ◌≡◌, ◌≢◌, refl, ◌∙◌, sym, ◌⊎◌, inl, inr, fun_ext, Option, none,
  some, true, false, leb, ◌==◌, if◌then◌else◌, arith, ℕ_discrete, Bool-cases,
}
use amog_os.Base.Int.{ℤ, pos, neg}
use amog_os.Base.Options.{is_some}
use amog_os.Base.Memory.{update, update_self, update_ne}
use amog_os.File.{
  FileSystem, Descriptor, new_from, new_file_descriptor, get_file_descriptor, free_file_descriptor,
  max_file_descriptors,
}

module _ {Private : Type 0} where
  -- The slot `j` is the first one from `i` on that is free.
  pub record FirstFree (table : ℕ → Option (Descriptor Private)) (i j : ℕ) : Type 0 where
    pub reached : i ≤ j
    pub free : is_some (table j) ≡ false
    pub taken : (k : ℕ) → i ≤ k → k < j → is_some (table k) ≡ true

  found :
      (table : ℕ → Option (Descriptor Private)) (j : ℕ) (d : Descriptor Private)
      → j < max_file_descriptors
      → get_file_descriptor (pos (j + 1)) (update table j (some d)) ≡ some d
  unfolding get_file_descriptor
  found table j d lt = let m : j + 1 - 1 ≡ j = omega arith in rw m (ground arith)

  others :
      (table : ℕ → Option (Descriptor Private)) (j : ℕ) (d : Descriptor Private) (fd : ℕ)
      → fd ≢ j + 1
      → get_file_descriptor (pos fd) (update table j (some d)) ≡ get_file_descriptor (pos fd) table
  unfolding get_file_descriptor
  others table j d fd ne = ground arith

  is_none : (slot : Option (Descriptor Private)) → is_some slot ≡ false → slot ≡ none
  is_none none f = refl
  is_none (some d) f = absurd (ground (arith, f))

  -- Freeing the slot that was taken, which was free.
  freed :
      (table : ℕ → Option (Descriptor Private)) (j : ℕ) (d : Descriptor Private)
      → table j ≡ none
      → j < max_file_descriptors
      → free_file_descriptor (pos (j + 1)) (update table j (some d))
        ≡ (if j == 1023 then update table j (some d) else table)
  unfolding free_file_descriptor
  freed table j d e lt =
      let m : j + 1 - 1 ≡ j = omega arith in
      let z : (j + 1 == 0) ≡ false = ground arith in
      elim (ℕ_discrete j 1023) [
        | yes last ↦ rw last refl
        | no ne ↦
            let t : (j == 1023) ≡ false = ground arith in
            let l : leb max_file_descriptors (j + 1) ≡ false = ground arith in
            rw t (
              rw z (
                rw l (
                  rw m (
                    fun_ext (λ k. elim (ℕ_discrete j k) [
                      | yes here ↦
                          rw (sym here) (update_self (update table j (some d)) j none ∙ sym e)
                      | no other ↦
                          update_ne (update table j (some d)) j k none other
                          ∙ update_ne table j k (some d) other
                    ])))))
      ]

  -- What a new descriptor comes to.
  abbrev Opened :
      FileSystem Private
      → Private
      → ℕ
      → (ℕ → Option (Descriptor Private))
      → ℕ
      → ℕ
      → ℤ × (ℕ → Option (Descriptor Private))
      → Type 0
  Opened fs private_data disk table i left r =
      ((j : ℕ) × FirstFree table i j
        × (j < i + left)
        × (r ≡ (
          pos (j + 1),
          update table j
              (some (record { fs = fs; private_data = private_data; index = j + 1; disk = disk })),
        )))
      ⊎ (((k : ℕ) → i ≤ k → k < i + left → is_some (table k) ≡ true) × (r ≡ (neg 3, table)))

  later :
      (fs : FileSystem Private) (private_data : Private) (disk left i : ℕ)
      (table : ℕ → Option (Descriptor Private)) (r : ℤ × (ℕ → Option (Descriptor Private)))
      → is_some (table i) ≡ true
      → Opened fs private_data disk table (i + 1) left r
      → Opened fs private_data disk table i (suc left) r
  later fs private_data disk left i table r t (inl (j, first, lt, e)) = inl (
    j,
    record {
      reached = omega (arith, first.reached);
      free = first.free;
      taken = λ k ge lt'. elim (ℕ_discrete i k) [
        | yes here ↦ rw (sym here) t
        | no ne ↦ first.taken k (omega arith) lt'
      ];
    },
    omega arith,
    e,
  )
  later fs private_data disk left i table r t (inr (all, e)) = inr (
    λ k ge lt. elim (ℕ_discrete i k) [
      | yes here ↦ rw (sym here) t
      | no ne ↦ all k (omega arith) (omega arith)
    ],
    e,
  )

  new_from_lem :
      (fs : FileSystem Private) (private_data : Private) (disk left i : ℕ)
      (table : ℕ → Option (Descriptor Private))
      → Opened fs private_data disk table i left (new_from true fs private_data disk left i table)
  unfolding new_from
  new_from_lem fs private_data disk zero i table = inr (λ k ge lt. absurd (omega arith), refl)
  new_from_lem fs private_data disk (suc left) i table = elim (Bool-cases (is_some (table i))) [
    | inl t ↦ rw t (
        later fs private_data disk left i table _ t
          (new_from_lem fs private_data disk left (i + 1) table))
    | inr f ↦ rw f (
        inl (
          i,
          record { reached = omega arith; free = f; taken = λ k ge lt. absurd (omega arith) },
          omega arith,
          refl,
        ))
  ]

  -- With memory for it, a new descriptor takes the first free slot of the table, and its number is
  -- one more; when all 1024 slots are taken it is refused and the table stays. The number that is
  -- given out finds the new descriptor, every other number finds what it found before, and freeing
  -- the number restores the table, except for the last number, 1024, whose freeing does nothing.
  pub new_file_descriptor_lem :
      (fs : FileSystem Private) (private_data : Private) (disk : ℕ)
      (table : ℕ → Option (Descriptor Private))
      → ((j : ℕ) × (table' : ℕ → Option (Descriptor Private)) × FirstFree table 0 j
          × (j < max_file_descriptors)
          × (new_file_descriptor true fs private_data disk table ≡ (pos (j + 1), table'))
          × (get_file_descriptor (pos (j + 1)) table'
              ≡ some (record { fs = fs; private_data = private_data; index = j + 1; disk = disk }))
          × ((fd : ℕ)
              → fd ≢ j + 1
              → get_file_descriptor (pos fd) table' ≡ get_file_descriptor (pos fd) table)
          × (free_file_descriptor (pos (j + 1)) table' ≡ (if j == 1023 then table' else table)))
        ⊎ (((k : ℕ) → k < max_file_descriptors → is_some (table k) ≡ true)
            × (new_file_descriptor true fs private_data disk table ≡ (neg 3, table)))
  unfolding new_file_descriptor
  new_file_descriptor_lem fs private_data disk table =
      elim (new_from_lem fs private_data disk max_file_descriptors 0 table) [
        | inr (all, e) ↦ inr (λ k lt. all k (omega arith) (omega arith), e)
        | inl (j, first, lt, e) ↦
            let d : Descriptor Private = record {
              fs = fs;
              private_data = private_data;
              index = j + 1;
              disk = disk;
            } in
            let lt' : j < max_file_descriptors = omega (arith, lt) in
            inl (
              j,
              update table j (some d),
              first,
              lt',
              e,
              found table j d lt',
              others table j d,
              freed table j d (is_none (table j) first.free) lt',
            )
      ]
