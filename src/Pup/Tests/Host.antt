-- ===== src/Pup/Tests/Host.antt =====
-- The host: a command line, where no file and no device is there, and a file read in two pieces.
use Prim.Native.String.{String}
use text.Mathlib.Text.{◌==◌ as str_eq}
use dma.Base.{ℕ, ◌^◌, ◌<◌, ◌≡◌, refl, true, if◌then◌else◌, Option, none, some, List, [], ◌∷◌}
use dma.Pup.Options.{
  Opts, default_opts, opt_retries, parse_opts, take_arguments, take_argument, take_flag, take_value,
  take_path, parse_opts-retries,
}
use dma.Pup.Crc.{crc32, crc_init}
use dma.Pup.Upload.File.{
  pieces_read, joined, input_crc, total_chunks, chunks_from, input_crc-chunks,
}
use dma.Base.{arith}

abbrev missing : String → Option ℕ
missing path = none

abbrev number : String → Option ℕ
number arg = if str_eq arg "9600" then some 9600 else if str_eq arg "3" then some 3 else none

abbrev command_line : List String
command_line = "-B" ∷ "9600" ∷ "-R" ∷ "3" ∷ []

-- The 3 is taken for the image.
abbrev parsed : Opts
parsed = record default_opts {
  con_baud = 9600;
  debug = opt_retries;
  inp_path = "3";
  prints_usage = true;
}

reads_command_line : parse_opts missing missing number command_line ≡ some parsed
unfolding parse_opts take_arguments take_argument take_flag take_value take_path
reads_command_line = refl

parse_opts-retries_example : (parsed.retries ≡ 10) × (parsed.con_baud < 2 ^ 32)
parse_opts-retries_example =
    parse_opts-retries missing missing number command_line parsed reads_command_line

abbrev pieces : List (List ℕ)
pieces = (1 ∷ 2 ∷ []) ∷ (3 ∷ []) ∷ []

input_crc-chunks_example :
    (input_crc (pieces_read pieces) ≡ some (crc32 crc_init (joined pieces)))
    × (chunks_from (joined pieces) (total_chunks 3) 0 ≡ some (1 ∷ 2 ∷ 3 ∷ []))
input_crc-chunks_example = input_crc-chunks pieces (omega arith, (omega arith, tt))
