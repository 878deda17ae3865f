-- ===== src/Args/Programs.antt =====
-- The tests with which the programs begin: check_param of pro/src/client_util.c and pro/src/server.c, of
-- HW4/client.c, HW4/server.c and hw5/proxy.c, and the heads of main in HW3/client.c, HW3/server.c,
-- hw2/client.c, hw2/server.c and hw1/hw1.c.
use cmpe156_network_programm.Prelude.{
  ℤ, Bool, true, false, not, ◌||◌, List, [], Option, none, some, Result, ok, ◌>>=◌, load, length,
  ltb, ◌==◌, if◌then◌else◌,
}
use Prim.Native.String.{String}
use cmpe156_network_programm.Libc.Str.{Bytes, codes, str_eq, strcpy}
use cmpe156_network_programm.Args.{
  Regex, is_valid_ip, is_valid_port, is_number, has_file, is_only_letters_or_numbers,
}
use cmpe156_network_programm.Chat.Protocol.{check_user_name_length}

-- The program goes on, or ends with a message.
pub data Checked : Type 0 where
  accepted : Checked
  refused : Bytes → Checked

abbrev pub refuse : String → Result Checked
refuse message = ok (refused (codes message))

-- check_param of the chat server; HW4/server.c has the same.
unfoldable pub server_check_param : List Bytes → Result Checked
server_check_param argv =
    if not (length argv == 2)
    then refuse "Please use server by correct input! usage: ./server <portnumber>"
    else (load argv 1 >>= λ port. is_valid_port port >>= λ valid.
        if not valid then refuse "Please use legal port number!" else ok accepted)

-- The user name, behind its test of length.
unfoldable pub check_user_name : (Bytes → Bytes → Regex) → Bytes → Result Checked
check_user_name regex name =
    if not (check_user_name_length name)
    then refuse "Please input the user name less than 15 characters!"
    else elim (is_only_letters_or_numbers regex name) [
      | none ↦ refuse "regex Error!"
      | some true ↦ ok accepted
      | some false ↦ refuse "Please input the user name with only letters or numbers!"
    ]

-- check_param of the chat client.
unfoldable pub client_check_param :
    (Bytes → Bytes → Regex) → (Bytes → ℤ) → List Bytes → Result Checked
client_check_param regex inet_pton argv =
    if not (length argv == 4)
    then refuse
        "Please use client by correct input! usage: ./client <server-ip> <server-port> <client-ip>"
    else (load argv 1 >>= λ ip.
        if not (is_valid_ip regex inet_pton ip)
        then refuse "Please input correct server ip address!"
        else (load argv 2 >>= λ port. is_number port >>= λ numeric.
            if not numeric
            then refuse "Please input correct port number!"
            else (load argv 3 >>= λ name. check_user_name regex name)))

-- checkParam of HW4/client.c; main of HW3/client.c has the same tests.
unfoldable pub download_check_param : (Bytes → Option Bytes) → List Bytes → Result Checked
download_check_param files argv =
    if not (length argv == 4)
    then refuse
        "Please use client by correct input! usage: ./client <server-info.txt> <num-connections> <filename>"
    else (load argv 1 >>= λ info.
        if not (has_file files info)
        then refuse "Please input correct server-info.txt!"
        else (load argv 2 >>= λ connections. is_number connections >>= λ numeric.
            if not numeric then refuse "Please input correct num-connections!" else ok accepted))

-- checkParam of the proxy.
unfoldable pub proxy_check_param : (Bytes → Option Bytes) → List Bytes → Result Checked
proxy_check_param files argv =
    if not (length argv == 3)
    then refuse
        "Please use client by correct input! usage: ./proxy <listen-port> <forbidden-sites-file>"
    else (load argv 1 >>= λ port. is_number port >>= λ numeric.
        if not numeric
        then refuse "Please input correct port number!"
        else (load argv 2 >>= λ sites.
            if not (has_file files sites)
            then refuse "forbidden-sites-file does not exist!"
            else ok accepted))

-- The head of main in hw2/client.c.
unfoldable pub executer_check_param :
    (Bytes → Bytes → Regex) → (Bytes → ℤ) → List Bytes → Result Checked
executer_check_param regex inet_pton argv =
    if not (length argv == 3)
    then refuse "Please use client by correct input!"
    else (load argv 1 >>= λ ip.
        if not (is_valid_ip regex inet_pton ip)
        then refuse "Please use legal ip address!"
        else (load argv 2 >>= λ port. is_valid_port port >>= λ valid.
            if not valid then refuse "Please use legal port number!" else ok accepted))

-- The word behind the URL, if it is there, is `-h`.
unfoldable pub tool_option : List Bytes → Result Bool
tool_option argv =
    if length argv == 4 then (load argv 3 >>= λ word. ok (str_eq word (codes "-h"))) else ok true

abbrev pub refuse_tool : String → Result (Checked × Bytes × Bool)
refuse_tool message = ok (refused (codes message), [], false)

-- The options of hw1/hw1.c: the address, copied into its array, and whether `-h` is given.
unfoldable pub tool_options :
    (Bytes → Bytes → Regex) → (Bytes → ℤ) → List Bytes → Result (Checked × Bytes × Bool)
tool_options regex inet_pton argv =
    if ltb (length argv) 3 || ltb 4 (length argv)
    then refuse_tool "Please input as instruction!"
    else (tool_option argv >>= λ flagged.
        if not flagged
        then refuse_tool "Please input correct command, \"-h\" at the end for head request!"
        else (load argv 1 >>= λ ip.
            if not (is_valid_ip regex inet_pton ip)
            then refuse_tool "Please input legal IP address!"
            else (strcpy 16 (some ip) >>= λ ipaddr. ok (accepted, ipaddr, length argv == 4))))
