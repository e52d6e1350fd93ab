-- ===== src/Kernel/Constants/Error.antt =====
-- The error codes of sorgente/disastrOS_constants.h; `negsuc n` is -(n + 1).
use disastr_os_semaphores.Base.Int.{ℤ, negsuc}

abbrev pub out_of_range : ℤ
out_of_range = negsuc 2

abbrev pub not_implemented : ℤ
not_implemented = negsuc 1

abbrev pub wait : ℤ
wait = negsuc 4

abbrev pub spawn : ℤ
spawn = negsuc 5

abbrev pub sleep : ℤ
sleep = negsuc 6

abbrev pub resource_create : ℤ
resource_create = negsuc 7

abbrev pub resource_open : ℤ
resource_open = negsuc 8

abbrev pub resource_no_excl : ℤ
resource_no_excl = negsuc 9

abbrev pub resource_no_fd : ℤ
resource_no_fd = negsuc 10

abbrev pub resource_close : ℤ
resource_close = negsuc 11

abbrev pub resource_in_use : ℤ
resource_in_use = negsuc 12

abbrev pub wrong_id : ℤ
wrong_id = negsuc 13

abbrev pub sem_alloc : ℤ
sem_alloc = negsuc 14

abbrev pub sem_des_alloc : ℤ
sem_des_alloc = negsuc 15

abbrev pub sem_des_ptr_alloc : ℤ
sem_des_ptr_alloc = negsuc 16

abbrev pub list_insert : ℤ
list_insert = negsuc 17

abbrev pub sem_des_list : ℤ
sem_des_list = negsuc 18

abbrev pub sem_des_ptr_free : ℤ
sem_des_ptr_free = negsuc 19

abbrev pub sem_des_free : ℤ
sem_des_free = negsuc 20

abbrev pub list_detach : ℤ
list_detach = negsuc 21

abbrev pub sem_free : ℤ
sem_free = negsuc 22
