-- ===== src/Trace.antt =====
-- The masks of src/trace/base_trace.c, which decide whether a trace line is printed. Its child Line
-- has the line that is then composed; the output is not modelled.
pub mod Args
pub mod Fits
pub mod Line
pub mod Masks
use basearch.Prelude.{
  ℕ, ◌+◌, ◌-◌, ◌≡◌, Bool, true, false, not, ◌&&◌, ◌||◌, Option, none, some, if◌then◌else◌, ◌==◌,
  ltb, and32, or32, and_not32,
}

-- TRACE_M_ALL and TRACE_L_ALL, one past the last id
abbrev pub trace_m_all : ℕ
trace_m_all = 4

abbrev pub trace_l_all : ℕ
trace_l_all = 4

-- TRACE_M_CLEAR and TRACE_L_CLEAR
abbrev pub trace_m_clear : ℕ
trace_m_clear = 0

abbrev pub trace_l_clear : ℕ
trace_l_clear = 0

-- TRACE_L_ERR
abbrev pub trace_l_err : ℕ
trace_l_err = 1

-- BASE_TRACE_MODULE_MASK_ALL and BASE_TRACE_LEVEL_MASK_ALL
abbrev pub mask_all : ℕ
mask_all = 15

-- BASE_TRACE_MODULE_MASK_CLEAR and BASE_TRACE_LEVEL_MASK_CLEAR
abbrev pub mask_clear : ℕ
mask_clear = 0

-- `gbasetracemodule`, `gbasetracelevel` and `gbasetaceenable`
pub record Trace : Type 0 where
  pub modules : ℕ
  pub levels : ℕ
  pub enable : ℕ

-- A BOOL other than TRUE and FALSE only prints: `none`.
unfoldable pub base_trace_set_module : ℕ → Option Bool → Trace → Trace
base_trace_set_module md (some true) t = record t { modules = or32 t.modules md }
base_trace_set_module md (some false) t = record t { modules = and_not32 t.modules md }
base_trace_set_module md none t = t

unfoldable pub base_trace_set_level : ℕ → Option Bool → Trace → Trace
base_trace_set_level level (some true) t = record t { levels = or32 t.levels level }
base_trace_set_level level (some false) t = record t { levels = and_not32 t.levels level }
base_trace_set_level level none t = t

-- One of the two halves of `base_trace_set`.
abbrev pub set_mask : ℕ → ℕ → ℕ → ℕ → ℕ
set_mask all clear mask id =
    if all == id
    then or32 mask mask_all
    else if clear == id
    then and32 mask mask_clear
    else or32 mask id

-- `none` is the error for an id past the last.
unfoldable pub base_trace_set : ℕ → ℕ → Trace → Option Trace
base_trace_set md level t =
    if ltb trace_m_all md || ltb trace_l_all level
    then none
    else some (record t {
      modules = set_mask trace_m_all trace_m_clear t.modules md;
      levels = set_mask trace_l_all trace_l_clear t.levels level;
    })

-- Whether `base_trace_print` comes to print the line; `none` is the error for an id past the last.
unfoldable pub base_trace_prints : ℕ → ℕ → Trace → Option Bool
base_trace_prints md level t =
    if ltb (trace_m_all - 1) md || ltb (trace_l_all - 1) level
    then none
    else if not (t.enable == 1)
    then some false
    else some (
        (level == trace_l_err)
        || (not (and32 md t.modules == 0) && not (and32 level t.levels == 0)))
