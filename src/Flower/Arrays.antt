-- ===== src/Flower/Arrays.antt =====
-- The part of NumPy that host_server/flower_server.py calls, as a parameter: the elements of arrays
-- and their casts. A cast to int16 gives a number that a signed 16-bit field holds.
use dropout.Prelude.{ℕ, List}
use dropout.Prelude.Int.{ℤ}
use dropout.Bytes.Int16.{IsInt16}

pub record Numpy : Type 1 where
  pub Element : Type 0
  -- astype(np.int16), and astype(ref.dtype) of an int16
  pub to_int16 : Element → ℤ
  pub from_int16 : ℤ → Element
  pub to_int16-IsInt16 : (e : Element) → IsInt16 (to_int16 e)

-- An array: its shape, and its elements in the order of `flatten`.
pub record NdArray (numpy : Numpy) : Type 0 where
  pub shape : List ℕ
  pub elements : List numpy.Element
