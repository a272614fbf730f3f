-- ===== src/Host.antt =====
-- What the virtual machine takes from its environment: the type `double` with the operations and
-- conversions that src/vm.c uses, and the files and the terminal of stdio. All are parameters.
-- Strings are the bytes before the terminating NUL.
use basset_lang.Prelude.{ℕ, ℤ, Bool, Option, List}

abbrev pub Str : Type 0
Str = List ℕ

-- The modes that the program passes to `fopen`: "rb", "wb", "r+b" and "w+b".
pub data OpenMode : Type 0 where
  rb wb r_plus_b w_plus_b : OpenMode

pub record Host : Type 1 where
  pub Double : Type 0
  -- `(double)n`, and the constant M_PI.
  pub of_int : ℤ → Double
  pub m_pi : Double
  pub add : Double → Double → Double
  pub sub : Double → Double → Double
  pub mul : Double → Double → Double
  pub div : Double → Double → Double
  pub fmod : Double → Double → Double
  pub pow : Double → Double → Double
  pub neg : Double → Double
  pub sin : Double → Double
  pub cos : Double → Double
  pub tan : Double → Double
  pub atan : Double → Double
  pub exp : Double → Double
  pub log : Double → Double
  pub log10 : Double → Double
  pub sqrt : Double → Double
  pub fabs : Double → Double
  pub floor : Double → Double
  -- `a == b`, `a < b` and `a <= b`, all false where an operand is not a number.
  pub eq : Double → Double → Bool
  pub lt : Double → Double → Bool
  pub le : Double → Double → Bool
  -- The casts to `int`, `long`, `size_t`, `uint16_t` and `uint32_t`.
  pub to_int : Double → ℤ
  pub to_long : Double → ℤ
  pub to_size : Double → ℕ
  pub to_u16 : Double → ℕ
  pub to_u32 : Double → ℕ
  -- `sprintf` with "%g" and "%.12g", and `atof`.
  pub format_g : Double → Str
  pub format_12g : Double → Str
  pub atof : Str → Double
  -- The state of the files and the terminal, and an open `FILE *`.
  pub World : Type 0
  pub File : Type 0
  pub fopen : Str → OpenMode → World → Option File × World
  pub fclose : File → World → World
  pub fgetc : File → World → Option ℕ × World
  pub fputc : ℕ → File → World → Bool × World
  pub ftell : File → World → ℤ
  pub fseek : File → ℤ → World → Bool × World
  pub remove : Str → World → Bool × World
  -- `fprintf(f, "%s", s)`, `printf("%s", s)`, and `fgets` on stdin into 256 bytes.
  pub fprintf : File → Str → World → World
  pub printf : Str → World → World
  pub fgets : World → Option Str × World
