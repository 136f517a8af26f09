-- ===== src/Fat16/Directory/Samples.antt =====
-- A directory with the files A and B.C, in which b.c is looked up.
use amog_os.Base.{ℕ, zero, suc, ◌<◌, refl, List, [], ◌∷◌, get_or, arith}
use amog_os.CString.{Str}
use amog_os.CString.Compare.{IsBytes}
use amog_os.Fat16.{DirEntry}
use amog_os.Fat16.Name.{IsPadded, full_name}
use amog_os.Fat16.Directory.Lookup.{HasName}
use amog_os.FilePath.Spec.{c_string}

abbrev pub base : ℕ → List ℕ
base zero = b'A' ∷ []
base (suc k) = b'B' ∷ []

abbrev pub ext : ℕ → List ℕ
ext zero = []
ext (suc k) = b'C' ∷ []

abbrev pub files : ℕ → DirEntry
files k = record {
  filename = λ j. get_or (base k) j b' ';
  ext = λ j. get_or (ext k) j b' ';
  attribs = 0x20;
  high_16_bits_first_cluster = 0;
  low_16_bits_first_cluster = 2;
  file_size = 10;
}

abbrev pub wanted : Str
wanted i = get_or (b'b' ∷ b'.' ∷ b'c' ∷ []) i 0

pub wanted-IsBytes : IsBytes wanted
wanted-IsBytes zero = omega arith
wanted-IsBytes (suc zero) = omega arith
wanted-IsBytes (suc (suc zero)) = omega arith
wanted-IsBytes (suc (suc (suc k))) = omega arith

pub names-IsBytes : (k : ℕ) → IsBytes (c_string (full_name (base k) (ext k)))
unfolding full_name c_string
names-IsBytes zero zero = omega arith
names-IsBytes zero (suc j) = omega arith
names-IsBytes (suc k) zero = omega arith
names-IsBytes (suc k) (suc zero) = omega arith
names-IsBytes (suc k) (suc (suc zero)) = omega arith
names-IsBytes (suc k) (suc (suc (suc j))) = omega arith

pub files-HasName : (k : ℕ) → k < 2 → HasName (files k) (base k) (ext k)
unfolding IsPadded
files-HasName zero lt = record {
  filename = λ j lt. refl;
  extension = λ j lt. refl;
  plain = ((λ e. absurd (omega (arith, e))), (λ e. absurd (omega (arith, e))), tt);
  plain_ext = tt;
  short = omega arith;
  short_ext = omega arith;
  bytes = names-IsBytes 0;
}
files-HasName (suc k) lt = record {
  filename = λ j lt. refl;
  extension = λ j lt. refl;
  plain = ((λ e. absurd (omega (arith, e))), (λ e. absurd (omega (arith, e))), tt);
  plain_ext = ((λ e. absurd (omega (arith, e))), (λ e. absurd (omega (arith, e))), tt);
  short = omega arith;
  short_ext = omega arith;
  bytes = names-IsBytes (suc k);
}
