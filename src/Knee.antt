-- ===== src/Knee.antt =====
-- hack/arena-sc-open-loop-summarize.py: `infer_knee`, the bracket of the knee over the offered rates.
pub mod Infer
pub mod Bracket
