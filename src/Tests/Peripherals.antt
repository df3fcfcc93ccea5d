-- ===== src/Tests/Peripherals.antt =====
-- The keyboard's queue, the clock, the SD card, the queue of sound and the ring of instructions at concrete states.
use my_oscpu.Base.{
  ℕ, ◌+◌, ◌≤◌, ◌≡◌, arith, true, false, ltb, if◌then◌else◌, ◌∷◌, none, ok, codes, take, refl, some,
  [],
}
use my_oscpu.Device.Map.{Io, find_map, map_read}
use my_oscpu.Device.Keyboard.{Keyboard, key_enqueue, key_dequeue}
use my_oscpu.Device.Keyboard.Queue
use my_oscpu.Device.Keyboard.Queue.{
  contents, items, Dequeues, contents-key_enqueue, key_dequeue-Dequeues,
}
use my_oscpu.Memory.Range.{in_pmem}
use my_oscpu.Memory.Paddr.{Memory}
use my_oscpu.Am.Ioe.{rtc_addr, am_timer_uptime}
use my_oscpu.Am.Uptime.{latched, am_timer_uptime-get_time}
use my_oscpu.Device.Clock.{Clock, IsMonotone, get_time, get_time_monotone}
use my_oscpu.Device.Timer.Latch.{rtc_map}
use my_oscpu.Memory.Bytes.{Bytes}
use my_oscpu.Device.Audio.{Audio, audio_callback}
use my_oscpu.Device.Audio.Queue.{Takes, audio_callback-Takes}
use my_oscpu.Device.Sdcard.{CardFile, Sdcard, ext_csd}
use my_oscpu.Device.Sdcard.Csd.{sdhci_map, read_data-ext_csd}
use my_oscpu.Tracer.Ring.{RingBuffer, write_ring_buffer}
use my_oscpu.Tracer.Ring.Recent.{recent, recent-write_ring_buffer}
use my_oscpu.Tests.Data.{small}

-- One code is in the queue, at the end of the array.
abbrev keyboard : Keyboard
keyboard = record { keymap = λ i. i; key_queue = λ i. 30; key_f = 1023; key_r = 0 }

keyboard-IsValid : Queue.IsValid keyboard
keyboard-IsValid = record { front = omega arith; rear = omega arith }

contents-key_enqueue_example : (k' : Keyboard) × (key_enqueue 48 keyboard ≡ ok k')
unfolding items
contents-key_enqueue_example =
    let queued = (contents-key_enqueue 48 keyboard keyboard-IsValid).0 (omega arith) in
    (queued.0, queued.1)

key_dequeue-Dequeues_example : Dequeues keyboard (contents keyboard) (key_dequeue keyboard)
key_dequeue-Dequeues_example = key_dequeue-Dequeues keyboard keyboard-IsValid

-- A host clock that stands still behind a thousand readings.
abbrev reading : ℕ → ℕ
reading i = if ltb i 1000 then 1000 + i else 2000

reading-IsMonotone : IsMonotone reading
reading-IsMonotone = record {
  rises = λ i. ground arith;
  starts = omega arith;
  word = λ i. ground arith;
}

abbrev started : Clock
started = record { boot_time = 1000; calls = 5 }

get_time_monotone_example :
    (get_time reading started).0 ≤ (get_time reading (get_time reading started).1).0
get_time_monotone_example =
    (get_time_monotone reading started reading-IsMonotone (record { before = omega arith })).0

abbrev clock_io : Io Clock
clock_io = record { space = λ i. 0; dev = started }

abbrev clock_memory : Memory Clock
clock_memory = record {
  pmem = λ i. 0;
  bus = record {
    io = clock_io;
    maps = rtc_map reading rtc_addr 8 ∷ [];
    difftest = record { is_skip_ref = false; skip_dut_nr_inst = 0 };
  };
}

am_timer_uptime-get_time_example :
    am_timer_uptime small clock_memory
    ≡ ok ((get_time reading started).0, latched small reading 8 clock_memory)
unfolding in_pmem find_map
am_timer_uptime-get_time_example =
    am_timer_uptime-get_time small reading 8 clock_memory refl refl refl refl refl (omega arith)

abbrev card_file : CardFile ℕ
card_file = record { fseek = λ p f. p; fread_word = λ v f. (f, f + 4); fwrite_word = λ v f. f + 4 }

abbrev card : Io (Sdcard ℕ)
card = record {
  space = λ i. 0;
  dev = record {
    fp = none;
    blkcnt = 0;
    blk_addr = 0;
    addr = 0;
    write_cmd = false;
    read_ext_csd = false;
  };
}

read_data-ext_csd_example :
    (io1 io2 : Io (Sdcard ℕ)) × (map_read small
        (2734686208 + 64)
        4
        (some (sdhci_map card_file 0 2734686208))
        io1
      ≡ ok (ext_csd card_file 0 192, io2))
read_data-ext_csd_example =
    let read = read_data-ext_csd small card_file 0 2734686208 48 card (omega arith) (omega arith) in
    (read.1, read.2, read.5)

abbrev ring : RingBuffer
ring = record { buffer = λ i. codes "nop"; head = 15; size = 15 }

recent-write_ring_buffer_example :
    recent (write_ring_buffer (codes "ret") ring) ≡ take 127 (codes "ret") ∷ take 15 (recent ring)
recent-write_ring_buffer_example =
    recent-write_ring_buffer (codes "ret") ring (record { head = omega arith; size = omega arith })

-- Ten bytes of sound wait at 4096.
abbrev audio_io : Io Audio
audio_io = record {
  space = λ i. if ltb i 4100 then 7 else 9;
  dev = record {
    freq = 0;
    channels = 0;
    samples = 0;
    size = 65536;
    opened = true;
    sbuf_count = 10;
  };
}

audio_callback-Takes_example :
    (r : Bytes × Io Audio) × (audio_callback 4096 6 audio_io ≡ ok r) × Takes 4096 6 audio_io r
audio_callback-Takes_example = audio_callback-Takes 4096 6 audio_io (omega arith) (omega arith)
