-- ===== src/Pup/Options.antt =====
-- The host's command line, `parse_opts` of pup/host.c. Opening a file, the search for a serial
-- device and `strtoull` are parameters; messages are not modelled.
use Prim.Native.String.{String}
use text.Mathlib.Text.{◌==◌ as str_eq}
use mathlib.Core.Path.{subst}
use dma.Base.{
  ℕ, ◌-◌, ◌^◌, ◌<◌, ◌≡◌, refl, arith, ◌==◌, ◌||◌, leb, if◌then◌else◌, Bool, true, false, Option,
  none, some, List, [], ◌∷◌,
}

-- `enum { OPT_NONE, ... }`
abbrev pub opt_none : ℕ
opt_none = 0

abbrev pub opt_dev : ℕ
opt_dev = 1

abbrev pub opt_load : ℕ
opt_load = 2

abbrev pub opt_con_baud : ℕ
opt_con_baud = 3

abbrev pub opt_retries : ℕ
opt_retries = 4

-- `opts_t`; a file descriptor of -1 is `none`, and `debug` is the number of a `dbg_lev`.
pub record Opts : Type 0 where
  pub inp_path : String
  pub inp_fd : Option ℕ
  pub dev_fd : Option ℕ
  pub load_addr : ℕ
  pub is_pty : Bool
  pub headless : Bool
  pub con_baud : ℕ
  pub debug : ℕ
  pub retries : ℕ
  pub prints_usage : Bool
  pub reset_tianleboard : Bool

abbrev pub default_opts : Opts
default_opts = record {
  inp_path = "<UNINIT>";
  inp_fd = none;
  dev_fd = none;
  load_addr = 2 ^ 64 - 1;
  is_pty = false;
  headless = false;
  con_baud = 115200;
  debug = 1;
  retries = 10;
  prints_usage = false;
  reset_tianleboard = false;
}

abbrev pub usage : Opts → Opts
usage o = record o { prints_usage = true }

-- An argument that is one of two spellings.
abbrev is_flag : String → String → String → Bool
is_flag arg short long = str_eq arg short || str_eq arg long

-- `find_serial_device` fails with `none`, as `open` does; `strtoull` where it stops early or sets `errno`.
module _ (find_serial_device open_file strtoull : String → Option ℕ) where
  -- The value of an option with a number.
  unfoldable pub take_value : ℕ → String → Opts → Opts
  take_value curr arg o = elim (strtoull arg) [
    | none ↦ usage o
    | some nv ↦
        if curr == opt_load
        then record o { load_addr = nv }
        else if curr == opt_con_baud
        then (if leb (2 ^ 32) nv then usage o else record o { con_baud = nv })
        else if curr == opt_retries
        then (if leb (2 ^ 8) nv then usage o else record o { retries = nv })
        else o
  ]

  -- An argument that is no flag: the image.
  unfoldable pub take_path : String → Opts → Opts
  take_path arg o = elim o.inp_fd [
    | some fd ↦ usage o
    | none ↦ elim (open_file arg) [
      | none ↦ usage (record o { inp_path = arg })
      | some fd ↦ record o { inp_path = arg; inp_fd = some fd }
    ]
  ]

  -- A flag, and which option waits for its value. `-R` sets `debug`.
  unfoldable pub take_flag : String → Opts → Opts × ℕ
  take_flag arg o =
      if is_flag arg "-h" "--help"
      then (usage o, opt_none)
      else if is_flag arg "-H" "--headless"
      then (record o { headless = true }, opt_none)
      else if is_flag arg "-p" "--pty"
      then (record o { is_pty = true }, opt_none)
      else if is_flag arg "-B" "--console-baud"
      then (o, opt_con_baud)
      else if is_flag arg "-a" "--addr"
      then (o, opt_load)
      else if is_flag arg "-d" "--dev"
      then (o, opt_dev)
      else if is_flag arg "-D" "--debug"
      then (record o { debug = 2 }, opt_none)
      else if is_flag arg "-q" "--quiet"
      then (record o { debug = 0 }, opt_none)
      else if is_flag arg "-R" "--retries"
      then (record o { debug = opt_retries }, opt_none)
      else if is_flag arg "-r" "--reset"
      then (record o { reset_tianleboard = true }, opt_none)
      else (take_path arg o, opt_none)

  -- One round of the loop; `none` is `exit(1)`.
  unfoldable pub take_argument : String → Opts × ℕ → Option (Opts × ℕ)
  take_argument arg (o, curr) =
      if curr == opt_none
      then some (take_flag arg o)
      else if curr == opt_dev
      then elim (find_serial_device arg) [
        | none ↦ none
        | some fd ↦ some (record o { dev_fd = some fd }, opt_none)
      ]
      else some (take_value curr arg o, opt_none)

  unfoldable pub take_arguments : List String → Opts × ℕ → Option (Opts × ℕ)
  take_arguments [] s = some s
  take_arguments (arg ∷ args) s = elim (take_argument arg s) [
    | none ↦ none
    | some t ↦ take_arguments args t
  ]

  -- The arguments are those after the program's name.
  unfoldable pub parse_opts : List String → Option Opts
  parse_opts [] = some (usage default_opts)
  parse_opts (arg ∷ args) = elim (take_arguments (arg ∷ args) (default_opts, opt_none)) [
    | none ↦ none
    | some (o, curr) ↦ some (if curr == opt_none then o else usage o)
  ]

  -- What the options keep while they are read.
  abbrev Kept : Opts × ℕ → Type 0
  Kept (o, curr) = (o.retries ≡ 10) × (o.con_baud < 2 ^ 32) × (curr < opt_retries)

  if-Kept : (b : Bool) (s t : Opts × ℕ) → Kept s → Kept t → Kept (if b then s else t)
  if-Kept true s t h k = h
  if-Kept false s t h k = k

  take_path-Kept : (arg : String) (o : Opts) → Kept (o, opt_none) → Kept (take_path arg o, opt_none)
  unfolding take_path
  take_path-Kept arg o h =
      elim o.inp_fd
        as (λ fd. Kept (
          elim fd as (λ _. Opts) [
            | some _ ↦ usage o
            | none ↦ elim (open_file arg) [
              | none ↦ usage (record o { inp_path = arg })
              | some fd ↦ record o { inp_path = arg; inp_fd = some fd }
            ]
          ],
          opt_none,
        )) [
          | some _ ↦ h
          | none ↦
              elim (open_file arg)
                as (λ file. Kept (
                  elim file as (λ _. Opts) [
                    | none ↦ usage (record o { inp_path = arg })
                    | some fd ↦ record o { inp_path = arg; inp_fd = some fd }
                  ],
                  opt_none,
                )) [ none ↦ h | some fd ↦ h ]
        ]

  take_flag-Kept : (arg : String) (o : Opts) → Kept (o, opt_none) → Kept (take_flag arg o)
  unfolding take_flag
  take_flag-Kept arg o h = if-Kept (is_flag arg "-h" "--help") _ _ h (
      if-Kept (is_flag arg "-H" "--headless") _ _ h (
        if-Kept (is_flag arg "-p" "--pty") _ _ h (
          if-Kept (is_flag arg "-B" "--console-baud") _ _ (h.0, h.1, omega arith)
            (if-Kept (is_flag arg "-a" "--addr") _ _ (h.0, h.1, omega arith)
              (if-Kept (is_flag arg "-d" "--dev") _ _ (h.0, h.1, omega arith)
                (if-Kept (is_flag arg "-D" "--debug") _ _ h (
                  if-Kept (is_flag arg "-q" "--quiet") _ _ h (
                    if-Kept (is_flag arg "-R" "--retries") _ _ h
                      (if-Kept (is_flag arg "-r" "--reset") _ _ h (take_path-Kept arg o h))))))))))

  take_value-Kept :
      (curr : ℕ) (arg : String) (o : Opts) → Kept (o, curr) → Kept (take_value curr arg o, opt_none)
  unfolding take_value
  take_value-Kept curr arg o h = ground arith

  abbrev IfKept : Option (Opts × ℕ) → Type 0
  IfKept none = Unit
  IfKept (some s) = Kept s

  if-IfKept :
      (b : Bool) (x y : Option (Opts × ℕ)) → IfKept x → IfKept y → IfKept (if b then x else y)
  if-IfKept true x y h k = h
  if-IfKept false x y h k = k

  take_argument-IfKept : (arg : String) (s : Opts × ℕ) → Kept s → IfKept (take_argument arg s)
  unfolding take_argument
  take_argument-IfKept arg (o, curr) h =
      if-IfKept (curr == opt_none) _ _ (take_flag-Kept arg o (h.0, h.1, omega arith)) (
        if-IfKept (curr == opt_dev) _ _ (found (find_serial_device arg))
          (take_value-Kept curr arg o h))
    where
      found :
          (dev : Option ℕ)
          → IfKept (elim dev as (λ _. Option (Opts × ℕ)) [
            | none ↦ none
            | some fd ↦ some (record o { dev_fd = some fd }, opt_none)
          ])
      found none = tt
      found (some fd) = (h.0, h.1, omega arith)

  take_arguments-IfKept :
      (args : List String) (s : Opts × ℕ) → Kept s → IfKept (take_arguments args s)
  unfolding take_arguments
  take_arguments-IfKept [] s h = h
  take_arguments-IfKept (arg ∷ args) s h =
      next (take_argument arg s) (take_argument-IfKept arg s h) (take_arguments-IfKept args)
    where
      next :
          (o : Option (Opts × ℕ))
          → IfKept o
          → ((t : Opts × ℕ) → Kept t → IfKept (take_arguments args t))
          → IfKept
              (elim o as (λ _. Option (Opts × ℕ)) [ none ↦ none | some t ↦ take_arguments args t ])
      next none k rest = tt
      next (some t) k rest = rest t k

  abbrev Parsed : Option Opts → Type 0
  Parsed none = Unit
  Parsed (some o) = (o.retries ≡ 10) × (o.con_baud < 2 ^ 32)

  parse_opts-Parsed : (args : List String) → Parsed (parse_opts args)
  unfolding parse_opts
  parse_opts-Parsed [] = (refl, omega arith)
  parse_opts-Parsed (arg ∷ args) =
      last (take_arguments (arg ∷ args) (default_opts, opt_none)) (
        take_arguments-IfKept (arg ∷ args) (default_opts, opt_none)
          (refl, omega arith, omega arith))
    where
      last :
          (r : Option (Opts × ℕ))
          → IfKept r
          → Parsed (elim r as (λ _. Option Opts) [
            | none ↦ none
            | some (o, curr) ↦ some (if curr == opt_none then o else usage o)
          ])
      last none k = tt
      last (some (o, curr)) k =
          elim (curr == opt_none) as (λ b. Parsed (some (if b then o else usage o))) [
            | true ↦ (k.0, k.1)
            | false ↦ (k.0, k.1)
          ]

  -- Whatever the arguments are, also with -R, the number of retries that parse_opts leaves is the
  -- default 10, and the console's baud rate fits in 32 bits.
  pub parse_opts-retries :
      (args : List String) (o : Opts)
      → parse_opts args ≡ some o
      → (o.retries ≡ 10) × (o.con_baud < 2 ^ 32)
  parse_opts-retries args o e = subst Parsed e (parse_opts-Parsed args)
