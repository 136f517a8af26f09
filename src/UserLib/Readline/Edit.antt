-- ===== src/UserLib/Readline/Edit.antt =====
-- The line that `readline_terminal` reads, against an editor on lists.
use mathlib.Core.List.{reverse, reverse_aux}
use amog_os.Base.{
  ℕ, ◌+◌, ◌-◌, ◌<◌, ◌≤◌, ◌≡◌, ◌≢◌, refl, sym, ap, ◌∙◌, subst, some, List, [], ◌∷◌, ◌++◌, true,
  false, ltb, ◌==◌, if◌then◌else◌, length, arith, ℕ_discrete,
}
use amog_os.Base.Holds.{Holds}
use amog_os.Base.Memory.{update, update_self, update_ne}
use amog_os.UserLib.Readline.{Line, take_key, readline_from, readline_terminal}

abbrev pub rest_of : List ℕ → List ℕ
rest_of [] = []
rest_of (c ∷ w) = w

pub rest_of-le : (w : List ℕ) → length (rest_of w) ≤ length w
rest_of-le [] = omega arith
rest_of-le (c ∷ w) = omega arith

-- The line after some keys, with its last character in front: a backspace takes it away.
abbrev pub edit : List ℕ → List ℕ → List ℕ
edit w [] = w
edit w (key ∷ keys) =
    if key == 0
    then edit w keys
    else if key == 0x08
    then edit (rest_of w) keys
    else edit (key ∷ w) keys

abbrev pub NoEnter : List ℕ → Type 0
NoEnter [] = Unit
NoEnter (key ∷ keys) = (key ≢ 0x0d) × NoEnter keys

-- The characters are in the buffer, the last one of `w` at 0.
abbrev pub Typed : (ℕ → ℕ) → List ℕ → Type 0
Typed buf [] = Unit
Typed buf (c ∷ w) = (buf (length w) ≡ c) × Typed buf w

Typed-update :
    (buf : ℕ → ℕ) (w : List ℕ) (i v : ℕ) → length w ≤ i → Typed buf w → Typed (update buf i v) w
Typed-update buf [] i v le t = tt
Typed-update buf (c ∷ w) i v le t =
    (update_ne buf i (length w) v (omega arith) ∙ t.0, Typed-update buf w i v (omega arith) t.1)

-- The line of `l` is `w`, and the buffer from `n` on is that of `buf`.
record IsLine (buf : ℕ → ℕ) (n : ℕ) (w : List ℕ) (l : Line) : Type 0 where
  typed : Typed l.buf w
  count : l.idx ≡ length w
  rest : (j : ℕ) → n ≤ j → l.buf j ≡ buf j

backspace-IsLine :
    (buf : ℕ → ℕ) (n : ℕ) (w : List ℕ) (l : Line)
    → length w ≤ n
    → IsLine buf n w l
    → IsLine buf n (rest_of w) (take_key 0x08 l)
unfolding take_key
backspace-IsLine buf n [] l le i = let z : (l.idx == 0) ≡ true = ground (arith, i.count) in rw z i
backspace-IsLine buf n (c ∷ w) l le i =
    let f : (l.idx == 0) ≡ false = ground (arith, i.count) in
    rw f (record {
      typed = Typed-update l.buf w (l.idx - 1) 0 (omega (arith, i.count)) i.typed.1;
      count = omega (arith, i.count);
      rest = λ j ge. update_ne l.buf (l.idx - 1) j 0 (omega (arith, i.count, ge)) ∙ i.rest j ge;
    })

character-IsLine :
    (buf : ℕ → ℕ) (n : ℕ) (w : List ℕ) (l : Line) (key : ℕ)
    → length w < n
    → key ≢ 0x08
    → IsLine buf n w l
    → IsLine buf n (key ∷ w) (take_key key l)
unfolding take_key
character-IsLine buf n w l key lt ne i =
    let f : (key == 0x08) ≡ false = ground (arith, ne) in
    rw f (record {
      typed = (
        ap (update l.buf l.idx key) (sym i.count) ∙ update_self l.buf l.idx key,
        Typed-update l.buf w l.idx key (omega (arith, i.count)) i.typed,
      );
      count = omega (arith, i.count);
      rest = λ j ge. update_ne l.buf l.idx j key (omega (arith, i.count, ge)) ∙ i.rest j ge;
    })

readline_from-IsLine :
    (buf : ℕ → ℕ) (n : ℕ) (keys more : List ℕ) (w : List ℕ) (max_len : ℕ) (l : Line)
    → NoEnter keys
    → length w + length keys ≤ n
    → n < max_len
    → IsLine buf n w l
    → (l' : Line) × (readline_from max_len (keys ++ (0x0d ∷ more)) l
        ≡ some (record l' { buf = update l'.buf l'.idx 0; put = l'.put ++ (b'\n' ∷ []) }, more))
      × IsLine buf n (edit w keys) l'
      × (l'.idx ≤ n)
unfolding readline_from
readline_from-IsLine buf n [] more w max_len l plain le lt i =
    let f : ltb l.idx max_len ≡ true = ground (arith, i.count, le, lt) in
    (l, rw f refl, i, omega (arith, i.count, le))
readline_from-IsLine buf n (key ∷ keys) more w max_len l plain le lt i =
    let f : ltb l.idx max_len ≡ true = ground (arith, i.count, le, lt) in
    let enter : (key == 0x0d) ≡ false = ground (arith, plain.0) in
    elim (ℕ_discrete key 0) [
      | yes e ↦
          let z : (key == 0) ≡ true = ground (arith, e) in
          let (l', run, i', bound) =
            readline_from-IsLine buf n keys more w max_len l plain.1 (omega arith) lt i in
          rw z (l', rw f run, i', bound)
      | no nz ↦
          let z : (key == 0) ≡ false = ground (arith, nz) in
          elim (ℕ_discrete key 0x08) [
            | yes e ↦
                let b : (key == 0x08) ≡ true = ground (arith, e) in
                let (l', run, i', bound) =
                  readline_from-IsLine buf n keys more (rest_of w) max_len (take_key key l) plain.1
                    (omega (arith, le, rest_of-le w)) lt
                    (subst (λ (k : ℕ). IsLine buf n (rest_of w) (take_key k l)) (sym e)
                      (backspace-IsLine buf n w l (omega arith) i)) in
                rw z (rw b (l', rw f (rw enter run), i', bound))
            | no ne ↦
                let b : (key == 0x08) ≡ false = ground (arith, ne) in
                let (l', run, i', bound) =
                  readline_from-IsLine buf n keys more (key ∷ w) max_len (take_key key l) plain.1
                    (omega (arith, le)) lt
                    (character-IsLine buf n w l key (omega (arith, le)) ne i) in
                rw z (rw b (l', rw f (rw enter run), i', bound))
          ]
    ]

Typed-Holds :
    (buf : ℕ → ℕ) (w text : List ℕ)
    → Typed buf w
    → Holds buf (length w) text
    → Holds buf 0 (reverse_aux w text)
Typed-Holds buf [] text t h = h
Typed-Holds buf (c ∷ w) text t h =
    Typed-Holds buf w (c ∷ text) t.1 (t.0, subst (λ (a : ℕ). Holds buf a text) (omega arith) h)

-- For keys without ENTER, fewer than `max_len`, and then ENTER: `readline_terminal` ends behind the
-- ENTER, the buffer holds the line that the editor makes of the keys, with a NUL behind it, and it
-- is as before behind the first bytes, one for each key and one for the NUL.
pub readline_terminal_lem :
    (buf : ℕ → ℕ) (max_len : ℕ) (keys more : List ℕ)
    → NoEnter keys
    → length keys < max_len
    → (l : Line) × (readline_terminal buf max_len (keys ++ (0x0d ∷ more)) ≡ some (l, more))
      × Holds l.buf 0 (reverse (0 ∷ edit [] keys))
      × ((j : ℕ) → length keys < j → l.buf j ≡ buf j)
unfolding readline_terminal
readline_terminal_lem buf max_len keys more plain lt =
    let (l, run, i, bound) =
      readline_from-IsLine buf (length keys) keys more [] max_len
        (record { buf = buf; idx = 0; put = [] }) plain (omega arith) lt
        (record { typed = tt; count = refl; rest = λ j ge. refl }) in
    let end = update l.buf l.idx 0 in
    let w = edit [] keys in
    (
      record l { buf = end; put = l.put ++ (b'\n' ∷ []) },
      run,
      Typed-Holds end w (0 ∷ []) (Typed-update l.buf w l.idx 0 (omega (arith, i.count)) i.typed)
          (ap end (sym i.count) ∙ update_self l.buf l.idx 0, tt),
      λ j gt. update_ne l.buf l.idx j 0 (omega (arith, bound, gt)) ∙ i.rest j (omega arith),
    )
