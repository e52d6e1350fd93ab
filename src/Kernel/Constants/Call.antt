-- ===== src/Kernel/Constants/Call.antt =====
-- The system call numbers of sorgente/disastrOS_constants.h.
use disastr_os_semaphores.Base.{ℕ}

abbrev pub preempt : ℕ
preempt = 1

abbrev pub fork : ℕ
fork = 2

abbrev pub wait : ℕ
wait = 3

abbrev pub exit : ℕ
exit = 4

abbrev pub spawn : ℕ
spawn = 5

abbrev pub sleep : ℕ
sleep = 6

abbrev pub open_resource : ℕ
open_resource = 7

abbrev pub close_resource : ℕ
close_resource = 8

abbrev pub destroy_resource : ℕ
destroy_resource = 9

abbrev pub shutdown : ℕ
shutdown = 10

abbrev pub sem_open : ℕ
sem_open = 11

abbrev pub sem_close : ℕ
sem_close = 12

abbrev pub sem_wait : ℕ
sem_wait = 13

abbrev pub sem_post : ℕ
sem_post = 14
