-- ===== src/Board/Tests.antt =====
-- The theorems on the drivers at concrete inputs, with a timer that stops at 1000.
use dma.Base.{ℕ, suc, ◌+◌, ◌<◌, ◌≤◌, ◌≡◌, refl, arith, min, some}
use dma.Board.Systmr.{Rising, Prompt, systmr_read_raw, systmr_delay_us, read_loop, wait_while}
use dma.Board.Systmr.Reading.{systmr_read_raw_lem, systmr_delay_us-returns}
use dma.Board.Gpio.{Gpio, gpio_pin_set_function, function_of, gpio_pin_set_function-function_of}

abbrev ticks : ℕ → ℕ
ticks n = min n 1000

ticks-Rising : Rising ticks
ticks-Rising = (λ n. omega arith, λ n. omega arith)

ticks-Prompt : Prompt ticks
ticks-Prompt n = omega arith

systmr_read_raw_lem_example :
    (k : ℕ) × (7 < k) × (k ≤ 10) × (systmr_read_raw ticks 2 7 ≡ some (ticks k, suc (suc k)))
systmr_read_raw_lem_example = systmr_read_raw_lem ticks ticks-Rising ticks-Prompt 0 7

systmr_delay_us-returns_example :
    (k : ℕ) × (systmr_delay_us ticks 22 9 4 ≡ some k) × (ticks 4 + 9 ≤ ticks k)
systmr_delay_us-returns_example =
    systmr_delay_us-returns ticks ticks-Rising ticks-Prompt 9 20 4 (omega arith)

-- The delay of 9 ends at the read whose value is 15.
delay_runs : systmr_delay_us ticks 20 9 4 ≡ some 16
unfolding systmr_delay_us systmr_read_raw read_loop wait_while
delay_runs = refl

abbrev inputs : Gpio
inputs = record { gpfsel = λ i. 0x12345678; gpset = λ i. 0; gpclr = λ i. 0 }

gpio_pin_set_function-function_of_example :
    function_of (gpio_pin_set_function 14 2 inputs) 15 ≡ function_of inputs 15
gpio_pin_set_function-function_of_example =
    gpio_pin_set_function-function_of inputs 14 2 15 (λ i. omega arith) (omega arith)
